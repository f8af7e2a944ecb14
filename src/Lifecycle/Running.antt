-- ===== src/Lifecycle/Running.antt =====
-- The nodes after a start that returns no error.
use kknode.Base.{
  String, ◌≡◌, refl, false, not, ◌⊎◌, inl, inr, List, [], ◌∷◌, Option, some, All, if-elim, map,
  arith,
}
use kknode.Base.Eq.{string_eq, ◌==◌}
use kknode.Base.Result.{Result, ok, err}
use kknode.Panel.{UserInfo}
use kknode.Panel.Client.{ClientError, get_user_list, get_user_alive}
use kknode.Limiter.{Limiter, add_limiter}
use kknode.Users.{CoreError, InboundManager}
use kknode.Node.{build_node_tag}
use kknode.Inbounds.{NodeError, HandlerManager}
use kknode.Inbounds.Data.{InboundDetour}
use kknode.Certs.{Refusals, CertError}
use kknode.Certs.Lego.{Resource, Acme}
use kknode.Certs.Request.{request_cert}
use kknode.Task.{new_task, start}
use kknode.Lifecycle.{
  StartError, Service, World, Answers, users_of, StartOutcome, start_tasks, start_added,
  start_users, start_inbound, start_listed, start_controller, start_node, user_list_error,
}

-- The controller has a limiter and both its tasks run.
abbrev pub Serves : Service → Type 0
Serves c =
    (c.user_list_monitor_periodic ≡ some (start false new_task))
    × (c.user_report_periodic ≡ some (start false new_task))
    × ((l : Limiter) × (c.limiter ≡ some l))

-- A controller of a started node serves, unless its protocol is disabled.
abbrev pub Settled : Service → Type 0
Settled c = (c.info.protocol.enable ≡ false) ⊎ Serves c

abbrev Good : {H : Type 0} → StartOutcome H → Type 0
Good r = r.1 ≡ ok tt → Serves r.0.0

start_added-Good :
    {H : Type 0} (c : Service) (w : World H) (r : Result CoreError _) (l : Limiter)
    → c.limiter ≡ some l
    → Good (start_added c w r)
unfolding start_added start_tasks
start_added-Good c w (err e) l h = λ k. absurd (cc)
start_added-Good c w (ok n) l h = λ k. (refl, refl, (l, h))

module _ {C : Type 0} (users : InboundManager) (io : HandlerManager C users.Handlers)
    (build : InboundDetour → Option C) (acme : Acme) (os : Refusals)
    (self_signed : String → Option Resource) (api_dir : String) where
  start_users-Good :
      (c : Service) (w : World users.Handlers) (r : Result NodeError users.Handlers) (l : Limiter)
      → c.limiter ≡ some l
      → Good (start_users users io build acme os self_signed api_dir c w r)
  unfolding start_users
  start_users-Good c w (err e) l h = λ k. absurd (cc)
  start_users-Good c w (ok hs) l h = start_added-Good c _ _ l h

  start_inbound-Good :
      (a : Answers) (c : Service) (w : World users.Handlers) (r : Result CertError (Unit {0}))
      (l : Limiter)
      → c.limiter ≡ some l
      → Good (start_inbound users io build acme os self_signed api_dir a c w r)
  unfolding start_inbound
  start_inbound-Good a c w (err e) l h = λ k. absurd (cc)
  start_inbound-Good a c w (ok _) l h = start_users-Good _ w _ l h

  start_listed-Good :
      (a : Answers) (c : Service) (w : World users.Handlers) (us : List UserInfo)
      → Good (start_listed users io build acme os self_signed api_dir a c w us)
  unfolding start_listed
  start_listed-Good a c w [] = λ k. absurd (cc)
  start_listed-Good a c w (u ∷ us) =
      let tag = build_node_tag c.api_host c.info in
      let (registry', l) = add_limiter tag (u ∷ us) get_user_alive w.registry in
      let c' : Service = record c { user_list = u ∷ us; tag = tag; limiter = some l } in
      let (system', r) = request_cert acme os self_signed c.info api_dir w.system in
      if-elim Good (c.info.protocol.security == "tls") _ _
        (λ _.
          start_inbound-Good a c' (record w { registry = registry'; system = system' }) r l refl)
        (λ _. start_inbound-Good a c' (record w { registry = registry' }) (ok tt) l refl)

  start_controller-Good :
      (a : Answers) (c : Service) (w : World users.Handlers)
      → Good (start_controller users io build acme os self_signed api_dir a c w)
  unfolding start_controller
  start_controller-Good a c w =
      listed (record c { user_etag = (get_user_list a.reply c.user_etag).0; user_list = [] })
        (get_user_list a.reply c.user_etag).1
    where
      listed :
          (c' : Service) (r : Result ClientError (Option (List UserInfo)))
          → Good (elim r [
            | err e ↦ ((c', w), err (user_list_error e))
            | ok list ↦
                start_listed users io build acme os self_signed api_dir a c' w (users_of list)
          ])
      listed c' (err e) = λ k. absurd (cc)
      listed c' (ok list) = start_listed-Good a c' w (users_of list)

  -- A node whose start returns no error serves, with every controller whose protocol is enabled.
  pub start_node-Settled :
      (cs : List (Answers × Service)) (w : World users.Handlers)
      → (start_node users io build acme os self_signed api_dir cs w).1 ≡ ok tt
      → All Settled (start_node users io build acme os self_signed api_dir cs w).0.0
  unfolding start_node
  start_node-Settled [] w = λ h. tt
  start_node-Settled ((a, c) ∷ cs) w =
      if-elim P (not c.info.protocol.enable) _ _
        (λ e k. (inl (ground arith), start_node-Settled cs w k))
        (λ _.
          began (start_controller users io build acme os self_signed api_dir a c w)
            (start_controller-Good a c w) (λ w'. start_node-Settled cs w'))
    where
      P : (List Service × World users.Handlers) × Result StartError (Unit {0}) → Type 0
      P r = r.1 ≡ ok tt → All Settled r.0.0

      began :
          (o : StartOutcome users.Handlers)
          → Good o
          → ((w' : World users.Handlers)
              → P (start_node users io build acme os self_signed api_dir cs w'))
          → P (elim o.1 [
            | err e ↦ ((o.0.0 ∷ map (λ x. x.1) cs, o.0.1), err e)
            | ok _ ↦ (
              (
                o.0.0 ∷ (start_node users io build acme os self_signed api_dir cs o.0.1).0.0,
                (start_node users io build acme os self_signed api_dir cs o.0.1).0.1,
              ),
              (start_node users io build acme os self_signed api_dir cs o.0.1).1,
            )
          ])
      began ((c', w'), err e) g rest = λ k. absurd (cc)
      began ((c', w'), ok _) g rest = λ k. (inr (g refl), rest w' k)
