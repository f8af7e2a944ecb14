-- ===== src/Portmap/Groups.antt =====
-- The groups of `FindAllConflicts`: they hold every record once, each within the range of its
-- group, and the ranges of two groups have no port in common.
pub mod Merging
pub mod Apart
use mathlib.Core.List.{Perm, perm_append_comm, perm-append_left_iff, perm-append_right_iff}
use mathlib.Core.List.Perm
use kknode.Base.{
  ℕ, ◌≤◌, ◌+◌, suc, ◌≡◌, refl, ap, sym, ◌∙◌, ◌⊎◌, inl, inr, Bool, true, false, ◌&&◌, List, [], ◌∷◌,
  ◌++◌, append_assoc, append-nil, if◌then◌else◌, length, length-append, filter, leb, All, All-imp,
  All-append, All-append_left, All-append_right, All-of, arith, Bool-cases,
}
use kknode.Base.Int.{ℤ, ltb_ℤ, leb_ℤ, ◌≤ℤ◌, ◌<ℤ◌}
use kknode.Portmap.{
  PortRangeRecord, PortConflictGroup, overlaps, meets, cover, merge_rest, merge_groups, place,
  group_ranges, find_all_conflicts,
}
use kknode.Portmap.Ports.{IsRange}

abbrev pub all_records : List PortConflictGroup → List PortRangeRecord
all_records [] = []
all_records (g ∷ gs) = g.records ++ all_records gs

perm_swap_front {ℓ} : {A : Type ℓ} (xs ys zs : List A) → Perm (xs ++ (ys ++ zs)) (ys ++ (xs ++ zs))
perm_swap_front xs ys zs =
    rw (← append_assoc xs ys zs, ← append_assoc ys xs zs)
      ((perm-append_right_iff zs).1 (perm_append_comm xs ys))

merge_rest-perm :
    (r : PortRangeRecord) (t : PortConflictGroup) (gs : List PortConflictGroup)
    → Perm
        ((merge_rest r t gs).0.records ++ all_records (merge_rest r t gs).1)
        (t.records ++ all_records gs)
unfolding merge_rest cover
merge_rest-perm r t [] = Perm.refl _
merge_rest-perm r t (g ∷ gs) =
    let moved = Perm.trans (perm_swap_front (merge_rest r t gs).0.records g.records _) (
      Perm.trans ((perm-append_left_iff g.records).1 (merge_rest-perm r t gs))
        (perm_swap_front g.records t.records (all_records gs))) in
    elim (Bool-cases (meets r g)) [
      | inl e ↦ rw e (rw (append_assoc (merge_rest r t gs).0.records) moved)
      | inr e ↦ rw e moved
    ]

place-perm :
    (r : PortRangeRecord) (gs : List PortConflictGroup)
    → Perm (all_records (place r gs)) (r ∷ all_records gs)
unfolding place merge_groups cover
place-perm r [] = Perm.refl _
place-perm r (g ∷ gs) = elim (Bool-cases (meets r g)) [
  | inl e ↦ rw e (
      Perm.trans (merge_rest-perm r (cover g r.start r.end (r ∷ [])) gs)
        (rw (append_assoc g.records) (perm_swap_front g.records (r ∷ []) (all_records gs))))
  | inr e ↦ rw e (
      Perm.trans ((perm-append_left_iff g.records).1 (place-perm r gs))
        (perm_swap_front g.records (r ∷ []) (all_records gs)))
]

pub group_ranges-perm :
    (rs : List PortRangeRecord) (gs : List PortConflictGroup)
    → Perm (all_records (group_ranges rs gs)) (rs ++ all_records gs)
unfolding group_ranges
group_ranges-perm [] gs = Perm.refl _
group_ranges-perm (r ∷ rs) gs = Perm.trans (group_ranges-perm rs (place r gs)) (
    Perm.trans ((perm-append_left_iff rs).1 (place-perm r gs))
      (perm_swap_front rs (r ∷ []) (all_records gs)))

-- One group ends before the other starts.
abbrev pub Separate : PortConflictGroup → PortConflictGroup → Type 0
Separate g h = (g.end <ℤ h.start) ⊎ (h.end <ℤ g.start)

abbrev pub AllSeparate : List PortConflictGroup → Type 0
AllSeparate [] = Unit
AllSeparate (g ∷ gs) = All (Separate g) gs × AllSeparate gs

abbrev pub Within : PortConflictGroup → PortRangeRecord → Type 0
Within g r = (g.start ≤ℤ r.start) × (r.end ≤ℤ g.end)

-- The group has a range, and its records lie in it.
abbrev pub IsHull : PortConflictGroup → Type 0
IsHull g = (g.start ≤ℤ g.end) × All (Within g) g.records

-- A group apart from two ranges that both meet the record, which it does not meet itself, is apart
-- from what covers the two.
pub Separate-cover :
    (r : PortRangeRecord) (t g h : PortConflictGroup) (rs : List PortRangeRecord)
    → IsRange r
    → h.start ≤ℤ h.end
    → Within t r
    → meets r h ≡ false
    → meets r g ≡ true
    → Separate t h
    → Separate g h
    → Separate (cover t g.start g.end rs) h
unfolding cover
Separate-cover r t g h rs v w c m k s u = ground arith

pub Within-cover :
    (t : PortConflictGroup) (start end : ℤ) (rs : List PortRangeRecord) (r : PortRangeRecord)
    → Within t r
    → Within (cover t start end rs) r
unfolding cover
Within-cover t start end rs r h = ground arith

All-Within-cover :
    (t : PortConflictGroup) (start end : ℤ) (rs xs : List PortRangeRecord)
    → All (Within t) xs
    → All (Within (cover t start end rs)) xs
All-Within-cover t start end rs xs h = All-imp (λ r w. Within-cover t start end rs r w) xs h

pub IsHull-cover :
    (t g : PortConflictGroup) → IsHull t → IsHull g → IsHull (cover t g.start g.end g.records)
unfolding cover
IsHull-cover t g h k = (
  ground arith,
  All-append _ t.records g.records (All-Within-cover t g.start g.end g.records t.records h.1)
      (All-imp (λ r w. ground arith) g.records k.1),
)
