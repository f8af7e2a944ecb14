-- ===== src/Lifecycle/Closing.antt =====
-- What the `Close` of a node does with a controller that was not started.
use kknode.Base.{
  String, ◌≡◌, refl, false, not, List, [], ◌∷◌, Option, none, map, Member, arith, inl, inr, ap, ◌∙◌,
  sym, subst, if-elim,
}
use kknode.Base.Result.{Result, ok, err}
use kknode.Panel.{NodeInfo}
use kknode.Users.{InboundManager}
use kknode.Inbounds.{HandlerManager, del_node}
use kknode.Inbounds.Data.{InboundDetour}
use kknode.Certs.{Refusals}
use kknode.Certs.Lego.{Resource, Acme}
use kknode.Lifecycle.{
  StartError, Service, World, Answers, new_controller, start_controller, close_controller,
  start_node, close_node,
}

-- The outcome of `Start` of a node.
abbrev Started : Type 0 → Type 0
Started H = (List Service × World H) × Result StartError (Unit {0})

module _ {C : Type 0} (users : InboundManager) (io : HandlerManager C users.Handlers)
    (build : InboundDetour → Option C) (acme : Acme) (os : Refusals)
    (self_signed : String → Option Resource) (api_dir : String)
    (no_tag : (hs : users.Handlers) → io.remove_handler "" hs ≡ none) where
  open users use {Handlers}

  close_controller-no_tag :
      (c : Service) (w : World Handlers)
      → c.tag ≡ ""
      → (close_controller users io build acme os self_signed api_dir c w).1 ≡ false
  unfolding close_controller del_node
  close_controller-no_tag c w e =
      let fails =
        subst (λ (tag : String). io.remove_handler tag w.core.handlers ≡ none) (sym e)
          (no_tag w.core.handlers) in
      rw (fails, close_controller, del_node) refl

  close_node-no_tag :
      (c : Service) (cs : List Service) (w : World Handlers)
      → c.tag ≡ ""
      → Member c cs
      → close_node users io build acme os self_signed api_dir cs w ≡ none
  unfolding close_node
  close_node-no_tag c [] w e m = absurd m.lower
  close_node-no_tag c (d ∷ cs) w e (inl is) =
      rw (close_controller-no_tag d w (ap (λ (s : Service). s.tag) is ∙ e)) refl
  close_node-no_tag c (d ∷ cs) w e (inr m) =
      let rest =
        close_node-no_tag c cs (close_controller users io build acme os self_signed api_dir d w).0.1
          e m in
      ground arith

  Member-map :
      (a : Answers) (c : Service) (cs : List (Answers × Service))
      → Member (a, c) cs
      → Member c (map (λ x. x.1) cs)
  Member-map a c [] m = absurd m.lower
  Member-map a c (d ∷ cs) (inl is) = inl (ap (λ (x : Answers × Service). x.1) is)
  Member-map a c (d ∷ cs) (inr m) = inr (Member-map a c cs m)

  -- A controller that is not enabled stays as it is.
  start_node-keeps :
      (a : Answers) (c : Service) (cs : List (Answers × Service)) (w : World Handlers)
      → c.info.protocol.enable ≡ false
      → Member (a, c) cs
      → Member c (start_node users io build acme os self_signed api_dir cs w).0.0
  unfolding start_node
  start_node-keeps a c [] w e m = absurd m.lower
  start_node-keeps a c ((b, d) ∷ cs) w e (inl is) =
      let d_is_c : d ≡ c = ap (λ (x : Answers × Service). x.1) is in
      let off : d.info.protocol.enable ≡ false =
        ap (λ (s : Service). s.info.protocol.enable) d_is_c ∙ e in
      if-elim (λ (r : Started Handlers). Member c r.0.0) (not d.info.protocol.enable) _ _
        (λ _. inl d_is_c) (λ on. absurd (cc))
  start_node-keeps a c ((b, d) ∷ cs) w e (inr m) =
      let here = start_node-keeps a c cs w e m in
      let later =
        start_node-keeps a c cs
          (start_controller users io build acme os self_signed api_dir b d w).0.1 e m in
      if-elim (λ (r : Started Handlers). Member c r.0.0) (not d.info.protocol.enable) _ _
        (λ _. inr here)
        (λ _. going (start_controller users io build acme os self_signed api_dir b d w).1 later)
    where
      next : Service × World Handlers
      next = (start_controller users io build acme os self_signed api_dir b d w).0

      rest : Started Handlers
      rest = start_node users io build acme os self_signed api_dir cs next.1

      go : Result StartError (Unit {0}) → Started Handlers
      go r = elim r [
        | err f ↦ ((next.0 ∷ map (λ x. x.1) cs, next.1), err f)
        | ok _ ↦ ((next.0 ∷ rest.0.0, rest.0.1), rest.1)
      ]

      going : (r : Result StartError (Unit {0})) → Member c rest.0.0 → Member c (go r).0.0
      going (err f) _ = inr (Member-map a c cs m)
      going (ok _) n = inr n

  -- Where xray-core removes no handler for the empty tag, `Close` of a node panics as soon as one of
  -- its protocols is not enabled: the controller of that protocol is not started and has no tag. It
  -- does so whatever became of the others, after a start that failed, too.
  pub close_node-start_node :
      (cs : List (Answers × Service)) (a : Answers) (api_host : String) (info : NodeInfo)
      (w w' : World Handlers)
      → info.protocol.enable ≡ false
      → Member (a, new_controller api_host info) cs
      → close_node users io build acme os self_signed api_dir
          (start_node users io build acme os self_signed api_dir cs w).0.0
          w'
        ≡ none
  unfolding new_controller
  close_node-start_node cs a api_host info w w' e m =
      let c = new_controller api_host info in
      close_node-no_tag c (start_node users io build acme os self_signed api_dir cs w).0.0 w' refl
        (start_node-keeps a c cs w e m)
