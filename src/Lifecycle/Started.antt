-- ===== src/Lifecycle/Started.antt =====
-- What a controller has when its `Start` returns no error.
use kknode.Base.{
  false, ℕ, String, ◌≡◌, ◌≢◌, refl, true, List, [], ◌∷◌, Option, some, is_some, ◌∙◌, sym, if-elim,
}
use kknode.Base.Eq.{string_eq, ◌==◌, beq_refl}
use kknode.Base.Map.{load, store, load-store}
use kknode.Base.Result.{Result, ok, err, ◌>>=◌}
use kknode.Panel.{UserInfo, NodeInfo}
use kknode.Panel.Client.{ClientError, get_user_list, get_user_alive}
use kknode.Limiter.{Registry, Limiter, add_limiter, new_limiter}
use kknode.Users
use kknode.Users.{Core, CoreError, InboundManager}
use kknode.Node.{build_node_tag}
use kknode.Inbounds.{
  NodeError, HandlerManager, build_inbound, build_inbound_failed, add_inbound, add_node,
}
use kknode.Inbounds.Data.{InboundDetour, InboundError}
use kknode.Inbounds.Accepted.{is_ok, accepts, built_of, build_inbound-is_ok}
use kknode.Certs.{Refusals, CertError}
use kknode.Certs.Lego.{Resource, Acme}
use kknode.Certs.Request.{request_cert}
use kknode.Task.{new_task, start}
use kknode.Lifecycle.{
  StartError, Service, World, Answers, start_tasks, start_inbound, start_controller, StartOutcome,
  start_added, start_users, start_listed, users_of,
}

-- What the later part of a start keeps and adds, where there is no error.
abbrev Goes : {H : Type 0} → Service → World H → StartOutcome H → Type 0
Goes c w r =
    (r.0.0.tag ≡ c.tag)
    × (r.0.0.limiter ≡ c.limiter)
    × (r.0.0.user_list ≡ c.user_list)
    × (r.0.1.registry ≡ w.registry)
    × (r.0.0.user_list_monitor_periodic ≡ some (start false new_task))
    × (r.0.0.user_report_periodic ≡ some (start false new_task))

-- A chain is right only where its first step is.
first_is_ok :
    {A B : Type 0} (m : Result InboundError A) (f : A → Result InboundError B) {b : B}
    → (m >>= f) ≡ ok b
    → is_ok m ≡ true
first_is_ok (ok a) f h = refl
first_is_ok (err e) f h = cc

start_added-Goes :
    {H : Type 0} (c : Service) (w : World H) (r : Result CoreError ℕ)
    → (start_added c w r).1 ≡ ok tt
    → Goes c w (start_added c w r)
unfolding start_added start_tasks
start_added-Goes c w (err e) h = cc
start_added-Goes c w (ok added) h = (refl, refl, refl, refl, refl, refl)

module _ {C : Type 0} (users : InboundManager) (io : HandlerManager C users.Handlers)
    (build : InboundDetour → Option C) where
  open users use {Handlers}

  add_node-accepts :
      (random : Option String) (tag : String) (info : NodeInfo) (api_dir : String) (hs : Handlers)
      {hs' : Handlers}
      → (add_node io build random tag info api_dir hs).1 ≡ ok hs'
      → accepts (is_some random) info.node_type info.protocol ≡ true
  unfolding add_node
  add_node-accepts random tag info api_dir hs {hs'} h =
      let (accepted, made) = build_inbound-is_ok build random info tag api_dir in
      sym accepted
      ∙ built (build_inbound some random info tag api_dir).1
          (build_inbound build random info tag api_dir).1 made h
    where
      built :
          (first : Result InboundError InboundDetour) (r : Result InboundError C)
          → r ≡ (first >>= built_of build)
          → (elim r [ err e ↦ err (build_inbound_failed e) | ok config ↦ add_inbound io config hs ])
            ≡ ok hs'
          → is_ok first ≡ true
      built first (err e) m h = cc
      built first (ok config) m h = first_is_ok first (built_of build) (sym m)

  module _ (acme : Acme) (os : Refusals) (self_signed : String → Option Resource)
      (api_dir : String) where
    start_users-Goes :
        (c : Service) (w : World Handlers) (r : Result NodeError Handlers)
        → (start_users users io build acme os self_signed api_dir c w r).1 ≡ ok tt
        → Goes c w (start_users users io build acme os self_signed api_dir c w r)
    unfolding start_users
    start_users-Goes c w (err e) h = cc
    start_users-Goes c w (ok hs) h =
        let (core', added) =
          Users.add_users users c.tag c.info c.user_list (record w.core { handlers = hs }) in
        start_added-Goes c (record w { core = core' }) added h

    start_inbound-Goes :
        (a : Answers) (c : Service) (w : World Handlers) (r : Result CertError (Unit {0}))
        → (start_inbound users io build acme os self_signed api_dir a c w r).1 ≡ ok tt
        → Goes c w (start_inbound users io build acme os self_signed api_dir a c w r)
          × (accepts (is_some a.random) c.info.node_type c.info.protocol ≡ true)
    unfolding start_inbound
    start_inbound-Goes a c w (err e) h = cc
    start_inbound-Goes a c w (ok _) h =
        let (info, r) = add_node io build a.random c.tag c.info api_dir w.core.handlers in
        (start_users-Goes (record c { info = info }) w r h, added r h refl)
      where
        added :
            (r : Result NodeError Handlers)
            → (start_users users io build acme os self_signed api_dir
                (record c {
                  info = (add_node io build a.random c.tag c.info api_dir w.core.handlers).0;
                })
                w
                r).1
              ≡ ok tt
            → (add_node io build a.random c.tag c.info api_dir w.core.handlers).1 ≡ r
            → accepts (is_some a.random) c.info.node_type c.info.protocol ≡ true
        added (err e) h m = cc
        added (ok hs) h m = add_node-accepts a.random c.tag c.info api_dir w.core.handlers m

    -- What a controller has whose start returns no error.
    abbrev pub IsServing : Answers → Service → StartOutcome Handlers → Type 0
    IsServing a c r =
        (r.0.0.tag ≡ build_node_tag c.api_host c.info)
        × (r.0.0.user_list ≢ [])
        × (r.0.0.limiter ≡ some (new_limiter r.0.0.tag r.0.0.user_list get_user_alive))
        × (load r.0.0.tag r.0.1.registry ≡ r.0.0.limiter)
        × (accepts (is_some a.random) c.info.node_type c.info.protocol ≡ true)
        × (r.0.0.user_list_monitor_periodic ≡ some (start false new_task))
        × (r.0.0.user_report_periodic ≡ some (start false new_task))

    start_listed-IsServing :
        (a : Answers) (c : Service) (w : World Handlers) (us : List UserInfo)
        → (start_listed users io build acme os self_signed api_dir a c w us).1 ≡ ok tt
        → IsServing a c (start_listed users io build acme os self_signed api_dir a c w us)
    unfolding start_listed add_limiter
    start_listed-IsServing a c w [] h = cc
    start_listed-IsServing a c w (u ∷ us) h =
        if-elim (λ (r : StartOutcome Handlers). r.1 ≡ ok tt → IsServing a c r)
          (c.info.protocol.security == "tls") _ _
          (λ _ e.
            serving (request_cert acme os self_signed c.info api_dir w.system).1
              (record w {
                registry = registry';
                system = (request_cert acme os self_signed c.info api_dir w.system).0;
              })
              refl e)
          (λ _ e. serving (ok tt) (record w { registry = registry' }) refl e) h
      where
        tag : String
        tag = build_node_tag c.api_host c.info

        l : Limiter
        l = new_limiter tag (u ∷ us) get_user_alive

        registry' : Registry
        registry' = store tag l w.registry

        c' : Service
        c' = record c { user_list = u ∷ us; tag = tag; limiter = some l }

        serving :
            (cert : Result CertError (Unit {0})) (w' : World Handlers)
            → w'.registry ≡ registry'
            → (start_inbound users io build acme os self_signed api_dir a c' w' cert).1 ≡ ok tt
            → IsServing a c (start_inbound users io build acme os self_signed api_dir a c' w' cert)
        serving cert w' e h =
            let (g, accepted) = start_inbound-Goes a c' w' cert h in
            let registered : load tag registry' ≡ some l =
              load-store tag tag l w.registry ∙ rw (beq_refl tag) refl in
            (g.0, λ n. cc, cc, cc, accepted, g.4, g.5)

    -- A controller whose `Start` returns no error has the tag of the node, users, and their limiter,
    -- which is the one registered under the tag; its node is one that has an inbound; and its two
    -- tasks are started.
    pub start_controller-IsServing :
        (a : Answers) (c : Service) (w : World Handlers)
        → (start_controller users io build acme os self_signed api_dir a c w).1 ≡ ok tt
        → IsServing a c (start_controller users io build acme os self_signed api_dir a c w)
    unfolding start_controller
    start_controller-IsServing a c w h = listed (get_user_list a.reply c.user_etag).1 h
      where
        c' : Service
        c' = record c { user_etag = (get_user_list a.reply c.user_etag).0; user_list = [] }

        go : Result ClientError (Option (List UserInfo)) → StartOutcome Handlers
        go r = elim r [
          | err e ↦ ((c', w), err (StartError.user_list_error e))
          | ok list ↦ start_listed users io build acme os self_signed api_dir a c' w (users_of list)
        ]

        listed :
            (r : Result ClientError (Option (List UserInfo)))
            → (go r).1 ≡ ok tt
            → IsServing a c (go r)
        listed (err e) h = cc
        listed (ok list) h = start_listed-IsServing a c' w (users_of list) h
