-- ===== src/Check/Uses.antt =====
-- The ports that a protocol uses, and those of a list of ranges.
use kknode.Base.{
  ◌⊎◌, true, false, ◌++◌, sym, ◌∙◌, subst, String, ◌≡◌, refl, inl, inr, ◌↔◌, not, List, [], ◌∷◌,
  All, if◌then◌else◌, if-elim, arith,
}
use kknode.Base.Int.{ℤ, pos, ltb_ℤ, ◌≤ℤ◌, ◌<ℤ◌}
use kknode.Base.Eq.{string_eq, ◌==◌}
use kknode.Base.Result.{Result, ok, err}
use kknode.Base.Text.{concat, trim_space}
use kknode.Panel.{Protocol}
use kknode.Portmap.{PortRangeRecord, HopError, parse_hop_ports}
use kknode.Portmap.Ports.{HasPort, Apart, Distinct}
use kknode.Check.{Backend, hop_ranges}
use kknode.Panel.Secrets.Restore.{protocols_of}

-- The protocol is enabled and listens on the port itself.
abbrev pub Listens : Protocol → ℤ → Type 0
Listens p n = (p.enable ≡ true) × (n ≡ p.port)

-- The protocol is enabled, and the port is one of its hop ports, which are valid.
abbrev pub Hops : Protocol → ℤ → Type 0
Hops p n =
    (p.enable ≡ true)
    × ((a : ℤ) × (b : ℤ) × (parse_hop_ports p.hop_ports ≡ ok (a, b))
        × (pos 0 <ℤ a)
        × (a ≤ℤ n)
        × (n ≤ℤ b))

abbrev pub Uses : Protocol → ℤ → Type 0
Uses p n = Listens p n ⊎ Hops p n

abbrev pub UsedBy : List Protocol → ℤ → Type 0
UsedBy [] n = ⊥
UsedBy (p ∷ ps) n = Uses p n ⊎ UsedBy ps n

-- No protocol has its own port among its hop ports, and no two use one port.
abbrev pub Peaceful : List Protocol → Type 0
Peaceful [] = Unit
Peaceful (p ∷ ps) =
    ((n : ℤ) → Listens p n → Hops p n → ⊥) × ((n : ℤ) → Uses p n → UsedBy ps n → ⊥) × Peaceful ps

-- The protocols of all backends, those that are disabled too.
abbrev pub all_protocols : List Backend → List Protocol
all_protocols [] = []
all_protocols (b ∷ bs) = protocols_of b.node_json ++ all_protocols bs

-- The port is in one of the ranges.
abbrev pub Touches : List PortRangeRecord → ℤ → Type 0
Touches [] n = ⊥
Touches (r ∷ rs) n = HasPort r n ⊎ Touches rs n

pub Touches-append :
    (xs ys : List PortRangeRecord) (n : ℤ) → Touches (xs ++ ys) n ↔ (Touches xs n ⊎ Touches ys n)
Touches-append [] ys n = (λ t. inr t, λ t. elim t [ inl e ↦ absurd e | inr t ↦ t ])
Touches-append (x ∷ xs) ys n =
    let (there, back) = Touches-append xs ys n in
    (
      λ t. elim t [
        | inl h ↦ inl (inl h)
        | inr t ↦ elim (there t) [ inl k ↦ inl (inr k) | inr k ↦ inr k ]
      ],
      λ t. elim t [
        | inl (inl h) ↦ inl h
        | inl (inr k) ↦ inr (back (inl k))
        | inr k ↦ inr (back (inr k))
      ],
    )

abbrev pub Free : List PortRangeRecord → List PortRangeRecord → Type 0
Free xs ys = (n : ℤ) → Touches xs n → Touches ys n → ⊥

pub All-Apart_iff :
    (r : PortRangeRecord) (rs : List PortRangeRecord)
    → All (Apart r) rs ↔ ((n : ℤ) → HasPort r n → Touches rs n → ⊥)
All-Apart_iff r [] = (λ a n h e. e, λ f. tt)
All-Apart_iff r (s ∷ rs) =
    let (there, back) = All-Apart_iff r rs in
    (
      λ a n h t. elim t [ inl k ↦ a.0 n h k | inr k ↦ there a.1 n h k ],
      λ f. ((λ n h k. f n h (inl k)), back (λ n h k. f n h (inr k))),
    )

pub Distinct-append :
    (xs ys : List PortRangeRecord) → Distinct (xs ++ ys) ↔ (Distinct xs × Free xs ys × Distinct ys)
Distinct-append [] ys = (λ d. (tt, (λ n e t. e), d), λ d. d.2)
Distinct-append (x ∷ xs) ys =
    let (there, back) = Distinct-append xs ys in
    let (apart, share) = All-Apart_iff x (xs ++ ys) in
    (
      λ d.
          let (dx, f, dy) = there d.1 in
          (
            (
              (All-Apart_iff x xs).1 (λ n h t. apart d.0 n h ((Touches-append xs ys n).1 (inl t))),
              dx,
            ),
            (λ n t u. elim t [
              | inl h ↦ apart d.0 n h ((Touches-append xs ys n).1 (inr u))
              | inr t ↦ f n t u
            ]),
            dy,
          ),
      λ d. (
        share (λ n h t. elim ((Touches-append xs ys n).0 t) [
          | inl k ↦ (All-Apart_iff x xs).0 d.0.0 n h k
          | inr k ↦ d.1 n (inl h) k
        ]),
        back (d.0.1, (λ n t u. d.1 n (inr t) u), d.2),
      ),
    )

zero_not_positive : (a : ℤ) → pos 0 ≡ a → pos 0 <ℤ a → ⊥
zero_not_positive a e = subst (λ z. pos 0 <ℤ z → ⊥) e (λ h. omega arith)

pair_eq :
    (a b a' b' : ℤ) (r : Result HopError (ℤ × ℤ))
    → r ≡ ok (a, b)
    → r ≡ ok (a', b')
    → (a ≡ a') × (b ≡ b')
pair_eq a b a' b' r e f = (cc, cc)

not-Hops : (p : Protocol) (n : ℤ) → (p.hop_ports == "") ≡ true → Hops p n → ⊥
unfolding parse_hop_ports trim_space
not-Hops p n e (on, (a, b, parsed, positive, low, high)) =
    let empty : p.hop_ports ≡ "" = (string_eq.beq_iff p.hop_ports "").0 e in
    let zero : parse_hop_ports "" ≡ ok (a, b) =
      subst (λ t. parse_hop_ports t ≡ ok (a, b)) empty parsed in
    zero_not_positive a (pair_eq (pos 0) (pos 0) a b (parse_hop_ports "") refl zero).0 positive

not_ok : (x : HopError) (r : ℤ × ℤ) → err x ≡ ok r → ⊥
not_ok x r e = absurd (cc)

not_positive : (a : ℤ) → ltb_ℤ (pos 0) a ≡ false → pos 0 <ℤ a → ⊥
not_positive a e h = ground arith

pub hop_ranges-Touches :
    (host : String) (p : Protocol) (n : ℤ)
    → p.enable ≡ true
    → Touches (hop_ranges host p) n ↔ Hops p n
unfolding hop_ranges
hop_ranges-Touches host p n on =
    if-elim P (not (p.hop_ports == "")) _ [] (λ _. go (parse_hop_ports p.hop_ports) refl)
      (λ e. (λ t. absurd t, λ h. not-Hops p n (ground arith) h))
  where
    P : List PortRangeRecord → Type 0
    P rs = Touches rs n ↔ Hops p n

    go :
        (r : Result HopError (ℤ × ℤ))
        → parse_hop_ports p.hop_ports ≡ r
        → P (elim r [
          | err _ ↦ []
          | ok (start, end) ↦
              if ltb_ℤ (pos 0) start
              then record {
                start = start;
                end = end;
                host = host;
                label = concat (p.node_type ∷ "/hop_ports" ∷ []);
              }
                ∷ []
              else []
        ])
    go (err x) e = (
      λ t. absurd t,
      λ (_, (a, b, parsed, positive, low, high)). absurd (not_ok x (a, b) (sym e ∙ parsed)),
    )
    go (ok (a, b)) e =
        if-elim P (ltb_ℤ (pos 0) a) _ []
          (λ h. (
            λ t. elim t [ inl k ↦ (on, (a, b, e, ground arith, k.0, k.1)) | inr t ↦ absurd t ],
            λ (_, (a', b', parsed, positive, low, high)). inl (
                let (ea, eb) = pair_eq a b a' b' (parse_hop_ports p.hop_ports) e parsed in
                (subst (λ z. z ≤ℤ n) (sym ea) low, subst (λ z. n ≤ℤ z) (sym eb) high)),
          ))
          (λ h. (
            λ t. absurd t,
            λ (_, (a', b', parsed, positive, low, high)).
                let (ea, eb) = pair_eq a b a' b' (parse_hop_ports p.hop_ports) e parsed in
                not_positive a h (subst (λ z. pos 0 <ℤ z) (sym ea) positive),
          ))
