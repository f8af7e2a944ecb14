-- ===== src/Lifecycle/Closed.antt =====
-- What the end of a node leaves.
use kknode.Base.{
  ◌⊎◌, inl, inr, Option-cases, String, ◌≡◌, refl, Bool, true, false, ◌||◌, List, [], ◌∷◌, Option,
  none, some, if◌then◌else◌, arith, ◌∙◌, subst,
}
use kknode.Base.Eq.{string_eq, ◌==◌}
use kknode.Base.Map.{load, load-delete}
use kknode.Base.Result.{Result, ok, err}
use kknode.Limiter.{delete_limiter}
use kknode.Users.{InboundManager}
use kknode.Inbounds.{NodeError, HandlerManager, del_node}
use kknode.Inbounds.Data.{InboundDetour}
use kknode.Certs.{Refusals}
use kknode.Certs.Lego.{Resource, Acme}
use kknode.Lifecycle.{Service, World, close_controller, close_node, close_task}

-- A controller of the node has the tag.
abbrev pub has_tag : String → List Service → Bool
has_tag tag [] = false
has_tag tag (c ∷ cs) = c.tag == tag || has_tag tag cs

-- The limiters of the node are gone, the others are as they were, and so are the files.
abbrev pub Cleared : {H : Type 0} → List Service → World H → World H → Type 0
Cleared cs w w' =
    (w'.system ≡ w.system)
    × ((tag : String)
        → load tag w'.registry ≡ (if has_tag tag cs then none else load tag w.registry))

-- xray-core may refuse to remove the inbound of a controller.
abbrev pub Refused : {C H : Type 0} → HandlerManager C H → List Service → Type 0
Refused {C} {H} io [] = ⊥
Refused {C} {H} io (c ∷ cs) = ((hs : H) × (io.remove_handler c.tag hs ≡ none)) ⊎ Refused io cs

module _ {C : Type 0} (users : InboundManager) (io : HandlerManager C users.Handlers)
    (build : InboundDetour → Option C) (acme : Acme) (os : Refusals)
    (self_signed : String → Option Resource) (api_dir : String) where
  close_controller-Cleared :
      (c : Service) (w : World users.Handlers)
      → Cleared (c ∷ []) w (close_controller users io build acme os self_signed api_dir c w).0.1
  unfolding close_controller delete_limiter
  close_controller-Cleared c w = deleted (del_node io c.tag w.core.handlers)
    where
      c' : Service
      c' = record c {
        user_list_monitor_periodic = close_task c.user_list_monitor_periodic;
        user_report_periodic = close_task c.user_report_periodic;
        renew_cert_periodic = close_task c.renew_cert_periodic;
      }

      w' : World users.Handlers
      w' = record w { registry = delete_limiter c.tag w.registry }

      Q : (Service × World users.Handlers) × Bool → Type 0
      Q r = Cleared (c ∷ []) w r.0.1

      gone :
          (tag : String)
          → load tag (delete_limiter c.tag w.registry)
            ≡ (if has_tag tag (c ∷ []) then none else load tag w.registry)
      gone tag = ground (arith, load-delete c.tag tag w.registry)

      deleted :
          (r : Result NodeError users.Handlers)
          → Q (elim r [
            | err _ ↦ ((c', w'), false)
            | ok hs ↦ ((c', record w' { core = record w.core { handlers = hs } }), true)
          ])
      deleted (err e) = (refl, gone)
      deleted (ok hs) = (refl, gone)

  pub close_node-Cleared :
      (cs : List Service) (w w' : World users.Handlers)
      → close_node users io build acme os self_signed api_dir cs w ≡ some w'
      → Cleared cs w w'
  unfolding close_node
  close_node-Cleared [] w w' e =
      let same : w ≡ w' = cc in subst (Cleared [] w) same (refl, λ tag. refl)
  close_node-Cleared (c ∷ cs) w w' e =
      rest (close_controller users io build acme os self_signed api_dir c w)
        (close_controller-Cleared c w) (λ u h. close_node-Cleared cs u w' h) e
    where
      both :
          (u : World users.Handlers)
          → Cleared (c ∷ []) w u
          → Cleared cs u w'
          → Cleared (c ∷ cs) w w'
      both u a b = (b.0 ∙ a.0, λ tag. ground (arith, b.1 tag, a.1 tag))

      rest :
          (o : (Service × World users.Handlers) × Bool)
          → Cleared (c ∷ []) w o.0.1
          → ((u : World users.Handlers)
              → close_node users io build acme os self_signed api_dir cs u ≡ some w'
              → Cleared cs u w')
          → (if o.1 then close_node users io build acme os self_signed api_dir cs o.0.1 else none)
            ≡ some w'
          → Cleared (c ∷ cs) w w'
      rest ((c', u), true) a f h = both u a (f u h)
      rest ((c', u), false) a f h = absurd (cc)

  close_controller-Refused :
      (c : Service) (w : World users.Handlers)
      → (close_controller users io build acme os self_signed api_dir c w).1 ≡ false
      → io.remove_handler c.tag w.core.handlers ≡ none
  unfolding close_controller del_node
  close_controller-Refused c w e = elim (Option-cases (io.remove_handler c.tag w.core.handlers)) [
    | inl k ↦ k
    | inr (hs, k) ↦
        let closes : (close_controller users io build acme os self_signed api_dir c w).1 ≡ true =
          rw (k, close_controller, del_node) refl in
        absurd (cc)
  ]

  pub close_node-Refused :
      (cs : List Service) (w : World users.Handlers)
      → close_node users io build acme os self_signed api_dir cs w ≡ none
      → Refused io cs
  unfolding close_node
  close_node-Refused [] w = λ e. absurd (cc)
  close_node-Refused (c ∷ cs) w =
      rest (close_controller users io build acme os self_signed api_dir c w)
        (close_controller-Refused c w) (λ u. close_node-Refused cs u)
    where
      rest :
          (o : (Service × World users.Handlers) × Bool)
          → (o.1 ≡ false → io.remove_handler c.tag w.core.handlers ≡ none)
          → ((u : World users.Handlers)
              → close_node users io build acme os self_signed api_dir cs u ≡ none
              → Refused io cs)
          → (if o.1 then close_node users io build acme os self_signed api_dir cs o.0.1 else none)
            ≡ none
          → Refused io (c ∷ cs)
      rest ((c', u), true) a f h = inr (f u h)
      rest ((c', u), false) a f h = inl (w.core.handlers, a refl)
