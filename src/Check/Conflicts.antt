-- ===== src/Check/Conflicts.antt =====
-- What the command finds: the ports that two protocols use.
use kknode.Base.{
  ap, append_assoc, true, ◌++◌, sym, ◌∙◌, subst, String, ◌≡◌, refl, inl, inr, ◌↔◌, not, List, [],
  ◌∷◌, if◌then◌else◌, if-elim, arith,
}
use kknode.Base.Int.{eq_of_parts, ℤ, pos, ltb_ℤ, ◌≤ℤ◌}
use kknode.Base.Eq.{string_eq, ◌==◌}
use kknode.Base.Result.{Result, ok, err}
use kknode.Base.Text.{concat}
use kknode.Panel.{Protocol}
use kknode.Portmap.{
  PortRangeRecord, PortConflictGroup, HopError, format_conflicts, parse_hop_ports,
  find_all_conflicts,
}
use kknode.Portmap.Overlap.{find_all_conflicts-eq-nil_iff}
use kknode.Portmap.Ports.{Distinct}
use kknode.Check.{
  Backend, hop_ranges, protocol_ranges, used_ranges, no_conflict, warnings, check_command,
}
use kknode.Check.Ranges.{used_ranges-All}
use kknode.Panel.Secrets.Restore.{protocols_of}
use kknode.Check.Uses.{
  Listens, Hops, Uses, UsedBy, Peaceful, all_protocols, Touches, Touches-append, All-Apart_iff,
  Distinct-append, hop_ranges-Touches,
}

abbrev own_ranges : String → Protocol → List PortRangeRecord
own_ranges host p =
    if not p.enable
    then []
    else record {
      start = p.port;
      end = p.port;
      host = host;
      label = concat (p.node_type ∷ "/port" ∷ []);
    }
      ∷ hop_ranges host p

protocol_ranges-cons :
    (host : String) (p : Protocol) (ps : List Protocol)
    → protocol_ranges host (p ∷ ps) ≡ own_ranges host p ++ protocol_ranges host ps
unfolding protocol_ranges
protocol_ranges-cons host p ps = ground arith

hop_ranges-Distinct : (host : String) (p : Protocol) → Distinct (hop_ranges host p)
unfolding hop_ranges
hop_ranges-Distinct host p =
    if-elim Distinct (not (p.hop_ports == "")) _ [] (λ _. go (parse_hop_ports p.hop_ports))
      (λ _. tt)
  where
    go :
        (r : Result HopError (ℤ × ℤ))
        → Distinct (elim r [
          | err _ ↦ []
          | ok (start, end) ↦
              if ltb_ℤ (pos 0) start
              then record {
                start = start;
                end = end;
                host = host;
                label = concat (p.node_type ∷ "/hop_ports" ∷ []);
              }
                ∷ []
              else []
        ])
    go (err x) = tt
    go (ok (a, b)) = if-elim Distinct (ltb_ℤ (pos 0) a) _ [] (λ _. (tt, tt)) (λ _. tt)

-- The ranges and the protocols agree.
abbrev Agrees : List PortRangeRecord → List Protocol → Type 0
Agrees rs ps = (Distinct rs ↔ Peaceful ps) × ((n : ℤ) → Touches rs n ↔ UsedBy ps n)

abbrev OwnAgrees : Protocol → List PortRangeRecord → Type 0
OwnAgrees p rs =
    (Distinct rs ↔ ((n : ℤ) → Listens p n → Hops p n → ⊥)) × ((n : ℤ) → Touches rs n ↔ Uses p n)

port_eq : (a n : ℤ) → a ≤ℤ n → n ≤ℤ a → n ≡ a
port_eq a n l h = eq_of_parts n a (omega arith)

own_ranges-OwnAgrees : (host : String) (p : Protocol) → OwnAgrees p (own_ranges host p)
own_ranges-OwnAgrees host p =
    if-elim (OwnAgrees p) (not p.enable) [] _
      (λ e. (
        (λ d n l h. off l.0 e, λ f. tt),
        λ n. (λ t. absurd t, λ u. elim u [ inl l ↦ off l.0 e | inr h ↦ off h.0 e ]),
      ))
      (λ e.
        let on : p.enable ≡ true = ground arith in
        let hops = λ (n : ℤ). hop_ranges-Touches host p n on in
        let r : PortRangeRecord = record {
          start = p.port;
          end = p.port;
          host = host;
          label = concat (p.node_type ∷ "/port" ∷ []);
        } in
        let (apart, share) = All-Apart_iff r (hop_ranges host p) in
        (
          (
            λ d n l h. apart d.0 n (at r l) ((hops n).1 h),
            λ f. (
              share (λ n k t. f n (on, port_eq p.port n k.0 k.1) ((hops n).0 t)),
              hop_ranges-Distinct host p,
            ),
          ),
          λ n. (
            λ t. elim t [ inl k ↦ inl (on, port_eq p.port n k.0 k.1) | inr t ↦ inr ((hops n).0 t) ],
            λ u. elim u [ inl l ↦ inl (at r l) | inr h ↦ inr ((hops n).1 h) ],
          ),
        ))
  where
    off : p.enable ≡ true → not p.enable ≡ true → ⊥
    off e f = ground arith

    at : {n : ℤ} (r : PortRangeRecord) → Listens p n → (p.port ≤ℤ n) × (n ≤ℤ p.port)
    at {n} r l = subst (λ z. (p.port ≤ℤ z) × (z ≤ℤ p.port)) (sym l.1) (omega arith, omega arith)

Agrees-step :
    (p : Protocol) (own rs : List PortRangeRecord) (ps : List Protocol)
    → OwnAgrees p own
    → Agrees rs ps
    → Agrees (own ++ rs) (p ∷ ps)
Agrees-step p own rs ps (od, ot) (d, t) =
    let (there, back) = Distinct-append own rs in
    (
      (
        λ k. let (x, f, y) = there k in (od.0 x, (λ n u w. f n ((ot n).1 u) ((t n).1 w)), d.0 y),
        λ k. back (od.1 k.0, (λ n u w. k.1 n ((ot n).0 u) ((t n).0 w)), d.1 k.2),
      ),
      λ n. (
        λ k. elim ((Touches-append own rs n).0 k) [
          | inl u ↦ inl ((ot n).0 u)
          | inr w ↦ inr ((t n).0 w)
        ],
        λ k.
            (Touches-append own rs n).1
              (elim k [ inl u ↦ inl ((ot n).1 u) | inr w ↦ inr ((t n).1 w) ]),
      ),
    )

protocol_ranges-Agrees :
    (host : String) (ps : List Protocol) (rs : List PortRangeRecord) (qs : List Protocol)
    → Agrees rs qs
    → Agrees (protocol_ranges host ps ++ rs) (ps ++ qs)
unfolding protocol_ranges
protocol_ranges-Agrees host [] rs qs a = a
protocol_ranges-Agrees host (p ∷ ps) rs qs a =
    subst (λ xs. Agrees xs (p ∷ ps ++ qs))
      (sym (
        ap (λ xs. xs ++ rs) (protocol_ranges-cons host p ps)
        ∙ append_assoc (own_ranges host p) (protocol_ranges host ps) rs))
      (Agrees-step p (own_ranges host p) (protocol_ranges host ps ++ rs) (ps ++ qs)
        (own_ranges-OwnAgrees host p) (protocol_ranges-Agrees host ps rs qs a))

used_ranges-Agrees : (bs : List Backend) → Agrees (used_ranges bs) (all_protocols bs)
unfolding used_ranges
used_ranges-Agrees [] = ((λ d. tt, λ d. tt), λ n. (λ e. e, λ e. e))
used_ranges-Agrees (b ∷ bs) =
    protocol_ranges-Agrees b.api_host (protocols_of b.node_json) (used_ranges bs) (all_protocols bs)
      (used_ranges-Agrees bs)

-- With a backend configured, the command reports no conflict exactly where, of the protocols of all
-- backends, no enabled one has its own port among its valid hop ports, and no two enabled ones use
-- one port, as their own or as a valid hop port.
pub check_command-no_conflict_iff :
    (b : Backend) (bs : List Backend)
    → (check_command (b ∷ bs) ≡ no_conflict) ↔ Peaceful (all_protocols (b ∷ bs))
unfolding check_command
check_command-no_conflict_iff b bs =
    let rs = used_ranges (b ∷ bs) in
    let (there, back) = find_all_conflicts-eq-nil_iff rs (used_ranges-All (b ∷ bs)) in
    let (peace, apart) = (used_ranges-Agrees (b ∷ bs)).0 in
    (
      λ h. peace (there (clean (find_all_conflicts rs) h)),
      λ d. quiet (find_all_conflicts rs) (back (apart d)),
    )
  where
    clean :
        (cs : List PortConflictGroup)
        → (elim cs [ [] ↦ no_conflict | d ∷ ds ↦ warnings (format_conflicts (d ∷ ds)) ])
          ≡ no_conflict
        → cs ≡ []
    clean [] h = refl
    clean (d ∷ ds) h = cc

    quiet :
        (cs : List PortConflictGroup)
        → cs ≡ []
        → (elim cs [ [] ↦ no_conflict | d ∷ ds ↦ warnings (format_conflicts (d ∷ ds)) ])
          ≡ no_conflict
    quiet [] h = refl
    quiet (d ∷ ds) h = cc
