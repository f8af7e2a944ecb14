-- ===== src/Server/Closing.antt =====
-- What the loop that closes the backends leaves, and where it panics.
use kknode.Base.{
  String, ◌≡◌, refl, Bool, false, ◌||◌, ◌⊎◌, inl, inr, List, [], ◌∷◌, ◌++◌, Option, none, some,
  if◌then◌else◌, sym, ◌∙◌, subst, arith,
}
use kknode.Base.Map.{load}
use kknode.Base.Eq.{string_eq}
use kknode.Base.Result.{Result, ok, err}
use kknode.Portmap.Mapping.{HopPortRange, Exec, remove_all_hop_ports}
use kknode.Lifecycle.{World, close_node}
use kknode.Lifecycle.Closed.{has_tag, Cleared, close_node-Cleared, Refused, close_node-Refused}
use kknode.Xray.{XrayError, panicked, close_core}
use kknode.Xray.Started.{close_core-panicked}
use kknode.Server.{Shared, Backend, Running, close_backends}
use kknode.Server.Loading.{Platform}

module _ {H I : Type 0} where
  -- A controller of one of the backends has the tag.
  abbrev pub has_tags : String → List (Backend H I) → Bool
  has_tags tag [] = false
  has_tags tag (b ∷ bs) = has_tag tag b.nodes || has_tags tag bs

  abbrev pub rules_of : List (Backend H I) → List (Option HopPortRange)
  rules_of [] = []
  rules_of (b ∷ bs) = b.hop_rules ++ rules_of bs

remove_all-append :
    {S : Type 0} (exec : Exec S) (xs ys : List (Option HopPortRange)) (s : S)
    → remove_all_hop_ports exec (xs ++ ys) s
      ≡ remove_all_hop_ports exec ys (remove_all_hop_ports exec xs s)
unfolding remove_all_hop_ports
remove_all-append exec [] ys s = refl
remove_all-append exec (x ∷ xs) ys s = remove_all-append exec xs ys _

module _ {C D R S : Type 0} (io : Platform C D R S) where
  -- The backends are closed: no limiter of theirs is left and their rules are removed; the other
  -- limiters and the files are as they were.
  abbrev pub AllClosed : List (Running io) → Shared S → Shared S → Type 0
  AllClosed bs w w' =
      (w'.system ≡ w.system)
      × ((tag : String)
          → load tag w'.registry ≡ (if has_tags tag bs then none else load tag w.registry))
      × (w'.iptables ≡ remove_all_hop_ports io.exec (rules_of bs) w.iptables)

  pub close_backends-AllClosed :
      (bs : List (Running io)) (w w' : Shared S)
      → close_backends io bs w ≡ some w'
      → AllClosed bs w w'
  unfolding close_backends remove_all_hop_ports
  close_backends-AllClosed [] w w' =
      λ e. let same : w ≡ w' = cc in subst (AllClosed [] w) same (refl, (λ tag. refl), refl)
  close_backends-AllClosed (b ∷ bs) w w' =
      let world : World io.users.Handlers = record {
        registry = w.registry;
        core = b.core;
        system = w.system;
      } in
      closed
        (close_node io.users io.io io.build io.acme io.os io.self_signed b.api_dir b.nodes world)
        (close_node-Cleared io.users io.io io.build io.acme io.os io.self_signed b.api_dir b.nodes
          world)
        (close_core io.builder io.parsers io.build_dns io.build_router io.addrs io.engine io.os
          b.xray_core).1
        (λ v. close_backends-AllClosed bs v w')
    where
      after : World io.users.Handlers → Shared S
      after u = record {
        registry = u.registry;
        system = u.system;
        iptables = remove_all_hop_ports io.exec b.hop_rules w.iptables;
      }

      both :
          (u : World io.users.Handlers)
          → Cleared b.nodes (record { registry = w.registry; core = b.core; system = w.system }) u
          → AllClosed bs (after u) w'
          → AllClosed (b ∷ bs) w w'
      both u a (s, l, r) = (
        s ∙ a.0,
        (λ tag. ground (arith, l tag, a.1 tag)),
        r ∙ sym (remove_all-append io.exec b.hop_rules (rules_of bs) w.iptables),
      )

      Goal : Option (Shared S) → Type 0
      Goal o = o ≡ some w' → AllClosed (b ∷ bs) w w'

      closed :
          (o : Option (World io.users.Handlers))
          → ((u : World io.users.Handlers)
              → o ≡ some u
              → Cleared b.nodes
                  (record { registry = w.registry; core = b.core; system = w.system })
                  u)
          → (r : Result XrayError (Unit {0}))
          → ((v : Shared S) → close_backends io bs v ≡ some w' → AllClosed bs v w')
          → Goal (elim o [
            | none ↦ none
            | some u ↦ elim r [ err panicked ↦ none | _ ↦ close_backends io bs (after u) ]
          ])
      closed none a r f = λ h. absurd (cc)
      closed (some u) a (err panicked) f = λ h. absurd (cc)
      closed (some u) a (err _) f = λ h. both u (a u refl) (f (after u) h)
      closed (some u) a (ok _) f = λ h. both u (a u refl) (f (after u) h)

  -- Closing can panic: xray-core may refuse to remove the inbound of a controller, or a core has no
  -- server.
  abbrev pub ClosePanics : List (Running io) → Type 0
  ClosePanics [] = ⊥
  ClosePanics (b ∷ bs) = Refused io.io b.nodes ⊎ (b.xray_core.server ≡ none) ⊎ ClosePanics bs

  pub close_backends-ClosePanics :
      (bs : List (Running io)) (w : Shared S) → close_backends io bs w ≡ none → ClosePanics bs
  unfolding close_backends
  close_backends-ClosePanics [] w = λ e. absurd (cc)
  close_backends-ClosePanics (b ∷ bs) w =
      let world : World io.users.Handlers = record {
        registry = w.registry;
        core = b.core;
        system = w.system;
      } in
      closed
        (close_node io.users io.io io.build io.acme io.os io.self_signed b.api_dir b.nodes world)
        (close_node-Refused io.users io.io io.build io.acme io.os io.self_signed b.api_dir b.nodes
          world)
        (close_core io.builder io.parsers io.build_dns io.build_router io.addrs io.engine io.os
          b.xray_core).1
        (close_core-panicked io.builder io.parsers io.build_dns io.build_router io.addrs io.engine
          io.os b.xray_core)
        (λ v. close_backends-ClosePanics bs v)
    where
      after : World io.users.Handlers → Shared S
      after u = record {
        registry = u.registry;
        system = u.system;
        iptables = remove_all_hop_ports io.exec b.hop_rules w.iptables;
      }

      Goal : Option (Shared S) → Type 0
      Goal o = o ≡ none → ClosePanics (b ∷ bs)

      closed :
          (o : Option (World io.users.Handlers))
          → (o ≡ none → Refused io.io b.nodes)
          → (r : Result XrayError (Unit {0})) → (r ≡ err panicked → b.xray_core.server ≡ none)
          → ((v : Shared S) → close_backends io bs v ≡ none → ClosePanics bs)
          → Goal (elim o [
            | none ↦ none
            | some u ↦ elim r [ err panicked ↦ none | _ ↦ close_backends io bs (after u) ]
          ])
      closed none a r p f = λ h. inl (a refl)
      closed (some u) a (err panicked) p f = λ h. inr (inl (p refl))
      closed (some u) a (err _) p f = λ h. inr (inr (f (after u) h))
      closed (some u) a (ok _) p f = λ h. inr (inr (f (after u) h))
