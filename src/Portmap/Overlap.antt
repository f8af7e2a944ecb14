-- ===== src/Portmap/Overlap.antt =====
-- `FindAllConflicts` reports nothing exactly where no two records share a port.
use kknode.Base.{
  ◌≤◌, ◌+◌, ◌≡◌, refl, ap, ◌↔◌, inl, inr, Bool, false, List, [], ◌∷◌, ◌++◌, length, length-append,
  filter, leb, All, All-imp, All-append, All-append_left, All-append_right, All-of, arith,
  Bool-cases,
}
use kknode.Portmap.{
  PortRangeRecord, PortConflictGroup, overlaps, meets, cover, merge_rest, merge_groups, place,
  group_ranges, find_all_conflicts,
}
use kknode.Portmap.Ports.{Apart, IsRange, Distinct, overlaps-Apart}

-- No later record meets an earlier one, by the test.
abbrev Misses : PortRangeRecord → PortRangeRecord → Type 0
Misses r s = overlaps s.start s.end r.start r.end ≡ false

abbrev AllMiss : List PortRangeRecord → Type 0
AllMiss [] = Unit
AllMiss (r ∷ rs) = All (Misses r) rs × AllMiss rs

abbrev Away : List PortConflictGroup → PortRangeRecord → Type 0
Away gs r = All (λ g. meets r g ≡ false) gs

abbrev Quiet : List PortConflictGroup → Type 0
Quiet = All (λ g. length g.records ≤ 1)

abbrev NonEmpty : List PortConflictGroup → Type 0
NonEmpty = All (λ g. 1 ≤ length g.records)

abbrev alone : PortRangeRecord → PortConflictGroup
alone r = record { start = r.start; end = r.end; records = r ∷ [] }

place-Away :
    (r : PortRangeRecord) (gs : List PortConflictGroup)
    → Away gs r
    → place r gs ≡ gs ++ alone r ∷ []
unfolding place
place-Away r [] h = refl
place-Away r (g ∷ gs) h = rw h.0 (ap (◌∷◌ g) (place-Away r gs h.1))

merge_rest-length :
    (r : PortRangeRecord) (t : PortConflictGroup) (gs : List PortConflictGroup)
    → length t.records ≤ length (merge_rest r t gs).0.records
unfolding merge_rest cover
merge_rest-length r t [] = omega arith
merge_rest-length r t (g ∷ gs) =
    ground
      (arith, merge_rest-length r t gs, length-append {0} (merge_rest r t gs).0.records g.records)

merge_groups-length :
    (r : PortRangeRecord) (g : PortConflictGroup) (gs : List PortConflictGroup)
    → length g.records + 1 ≤ length (merge_rest r (cover g r.start r.end (r ∷ [])) gs).0.records
unfolding cover
merge_groups-length r g gs = omega (
  arith,
  merge_rest-length r (cover g r.start r.end (r ∷ [])) gs,
  length-append {0} g.records (r ∷ []),
)

merge_rest-NonEmpty :
    (r : PortRangeRecord) (t : PortConflictGroup) (gs : List PortConflictGroup)
    → NonEmpty gs
    → NonEmpty (merge_rest r t gs).1
unfolding merge_rest
merge_rest-NonEmpty r t [] h = tt
merge_rest-NonEmpty r t (g ∷ gs) h = ground (arith, merge_rest-NonEmpty r t gs h.1)

place-NonEmpty :
    (r : PortRangeRecord) (gs : List PortConflictGroup) → NonEmpty gs → NonEmpty (place r gs)
unfolding place merge_groups
place-NonEmpty r [] h = omega arith
place-NonEmpty r (g ∷ gs) h = ground (
  arith,
  place-NonEmpty r gs h.1,
  merge_groups-length r g gs,
  merge_rest-NonEmpty r (cover g r.start r.end (r ∷ [])) gs h.1,
)

place-Quiet :
    (r : PortRangeRecord) (gs : List PortConflictGroup)
    → NonEmpty gs
    → Quiet (place r gs)
    → Away gs r
unfolding place merge_groups
place-Quiet r [] ne h = tt
place-Quiet r (g ∷ gs) ne h = elim (Bool-cases (meets r g)) [
  | inl e ↦ let met = rw e at h in absurd (omega (arith, met.0, merge_groups-length r g gs, ne.0))
  | inr e ↦ let kept = rw e at h in (e, place-Quiet r gs ne.1 kept.1)
]

Away-append :
    (gs : List PortConflictGroup) (r : PortRangeRecord) (rs : List PortRangeRecord)
    → All (Away (gs ++ alone r ∷ [])) rs
    → All (Away gs) rs × All (Misses r) rs
Away-append gs r rs h = (
  All-imp (λ s a. All-append_left _ gs (alone r ∷ []) a) rs h,
  All-imp (λ s a. (All-append_right _ gs (alone r ∷ []) a).0) rs h,
)

Away-append_inv :
    (gs : List PortConflictGroup) (r : PortRangeRecord) (rs : List PortRangeRecord)
    → All (Away gs) rs
    → All (Misses r) rs
    → All (Away (gs ++ alone r ∷ [])) rs
Away-append_inv gs r [] h k = tt
Away-append_inv gs r (s ∷ rs) h k =
    (All-append _ gs (alone r ∷ []) h.0 (k.0, tt), Away-append_inv gs r rs h.1 k.1)

-- The groups stay small exactly where the records meet neither the groups nor one another.
group_ranges-Quiet :
    (rs : List PortRangeRecord) (gs : List PortConflictGroup)
    → NonEmpty gs
    → Quiet (group_ranges rs gs)
    → Quiet gs × All (Away gs) rs × AllMiss rs
unfolding group_ranges
group_ranges-Quiet [] gs ne h = (h, tt, tt)
group_ranges-Quiet (r ∷ rs) gs ne h =
    let (quiet, away, miss) = group_ranges-Quiet rs (place r gs) (place-NonEmpty r gs ne) h in
    let apart : Away gs r = place-Quiet r gs ne quiet in
    let e : place r gs ≡ gs ++ alone r ∷ [] = place-Away r gs apart in
    let (far, missed) = Away-append gs r rs (rw e at away) in
    (All-append_left _ gs (alone r ∷ []) (rw e at quiet), (apart, far), (missed, miss))

group_ranges-Quiet_inv :
    (rs : List PortRangeRecord) (gs : List PortConflictGroup)
    → Quiet gs
    → All (Away gs) rs
    → AllMiss rs
    → Quiet (group_ranges rs gs)
unfolding group_ranges
group_ranges-Quiet_inv [] gs h a m = h
group_ranges-Quiet_inv (r ∷ rs) gs h a m = rw (place-Away r gs a.0) (
    group_ranges-Quiet_inv rs (gs ++ alone r ∷ [])
      (All-append _ gs (alone r ∷ []) h (omega arith, tt)) (Away-append_inv gs r rs a.1 m.0) m.1)

abbrev is_conflict : PortConflictGroup → Bool
is_conflict g = leb 2 (length g.records)

filter-Quiet : (gs : List PortConflictGroup) → filter is_conflict gs ≡ [] → Quiet gs
filter-Quiet [] h = tt
filter-Quiet (g ∷ gs) h = ground (arith, filter-Quiet gs)

Quiet-filter : (gs : List PortConflictGroup) → Quiet gs → filter is_conflict gs ≡ []
Quiet-filter [] h = refl
Quiet-filter (g ∷ gs) h = ground (arith, Quiet-filter gs h.1)

All-Misses-Apart :
    (r : PortRangeRecord) (rs : List PortRangeRecord)
    → IsRange r
    → All IsRange rs
    → All (Misses r) rs ↔ All (Apart r) rs
All-Misses-Apart r [] h v = (λ a. tt, λ a. tt)
All-Misses-Apart r (s ∷ rs) h v =
    let (there, back) = overlaps-Apart s r v.0 h in
    let (rest, rest_back) = All-Misses-Apart r rs h v.1 in
    (λ a. ((λ p x y. there a.0 p y x), rest a.1), λ a. (back (λ p x y. a.0 p y x), rest_back a.1))

AllMiss-Distinct : (rs : List PortRangeRecord) → All IsRange rs → AllMiss rs ↔ Distinct rs
AllMiss-Distinct [] v = (λ h. tt, λ h. tt)
AllMiss-Distinct (r ∷ rs) v =
    let (there, back) = All-Misses-Apart r rs v.0 v.1 in
    let (rest, rest_back) = AllMiss-Distinct rs v.1 in
    (λ a. (there a.0, rest a.1), λ a. (back a.0, rest_back a.1))

-- For ranges whose start is at most their end, no conflict is reported exactly where no two of the
-- records have a port in common.
pub find_all_conflicts-eq-nil_iff :
    (rs : List PortRangeRecord) → All IsRange rs → (find_all_conflicts rs ≡ []) ↔ Distinct rs
unfolding find_all_conflicts
find_all_conflicts-eq-nil_iff rs v = (
  λ h. (AllMiss-Distinct rs v).0 (group_ranges-Quiet rs [] tt (filter-Quiet _ h)).2,
  λ h. Quiet-filter _ (
      group_ranges-Quiet_inv rs [] tt (All-of (Away []) (λ r. tt) rs)
        ((AllMiss-Distinct rs v).1 h)),
)
