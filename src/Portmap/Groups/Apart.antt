-- ===== src/Portmap/Groups/Apart.antt =====
-- No two groups of `FindAllConflicts` share a port, at any point of its loop.
use mathlib.Core.List.{Perm}
use kknode.Base.{◌≡◌, inl, inr, true, List, [], ◌∷◌, append-nil, All, All-imp, arith, Bool-cases}
use kknode.Base.Int.{◌≤ℤ◌}
use kknode.Portmap.{
  PortRangeRecord, PortConflictGroup, meets, cover, merge_rest, merge_groups, place, group_ranges,
}
use kknode.Portmap.Ports.{IsRange, Apart}
use kknode.Portmap.Groups.{
  all_records, Separate, AllSeparate, Within, IsHull, IsHull-cover, group_ranges-perm,
}
use kknode.Portmap.Groups.Merging.{
  Misses, Separate-symm, merge_rest-All, merge_rest-AllSeparate, merge_rest-IsHull,
  merge_rest-Separate_one, merge_rest-Separate,
}

module _ (r : PortRangeRecord) (v : IsRange r) where
  -- The group that takes the record is apart from every group that the record misses.
  Separate-taken :
      (g h : PortConflictGroup)
      → meets r g ≡ true
      → h.start ≤ℤ h.end
      → Separate g h
      → Misses r h
      → Separate (cover g r.start r.end (r ∷ [])) h
  unfolding cover
  Separate-taken g h e w s m = ground arith

  All-Separate-taken :
      (g : PortConflictGroup) (gs : List PortConflictGroup)
      → meets r g ≡ true
      → All IsHull gs
      → All (Separate g) gs
      → All (λ h. Misses r h → Separate (cover g r.start r.end (r ∷ [])) h) gs
  All-Separate-taken g [] e k s = tt
  All-Separate-taken g (h ∷ gs) e k s =
      (Separate-taken g h e k.0.0 s.0, All-Separate-taken g gs e k.1 s.1)

  Within-taken : (g : PortConflictGroup) → Within (cover g r.start r.end (r ∷ [])) r
  unfolding cover
  Within-taken g = ground arith

  place-Separate_one :
      (h : PortConflictGroup) (gs : List PortConflictGroup)
      → h.start ≤ℤ h.end
      → Misses r h
      → All IsHull gs
      → All (Separate h) gs
      → All (Separate h) (place r gs)
  unfolding place merge_groups
  place-Separate_one h [] w m k s = (ground arith, tt)
  place-Separate_one h (g ∷ gs) w m k s = elim (Bool-cases (meets r g)) [
    | inl e ↦
        let t = cover g r.start r.end (r ∷ []) in
        rw e (
          Separate-symm (merge_rest r t gs).0 h (
              merge_rest-Separate_one r v t h gs w m (Within-taken g)
                (Separate-taken g h e w (Separate-symm h g s.0) m)
                (All-imp (λ x a. Separate-symm h x a) gs s.1)),
          merge_rest-All r (Separate h) t gs s.1,
        )
    | inr e ↦ rw e (s.0, place-Separate_one h gs w m k.1 s.1)
  ]

  place-AllSeparate :
      (gs : List PortConflictGroup) → All IsHull gs → AllSeparate gs → AllSeparate (place r gs)
  unfolding place merge_groups
  place-AllSeparate [] k d = (tt, tt)
  place-AllSeparate (g ∷ gs) k d = elim (Bool-cases (meets r g)) [
    | inl e ↦
        let t = cover g r.start r.end (r ∷ []) in
        rw e (
          merge_rest-Separate r v t gs (Within-taken g) k.1 d.1 (All-Separate-taken g gs e k.1 d.0),
          merge_rest-AllSeparate r t gs d.1,
        )
    | inr e ↦ rw e (place-Separate_one g gs k.0.0 e k.1 d.0, place-AllSeparate gs k.1 d.1)
  ]

  IsHull-taken : (g : PortConflictGroup) → IsHull g → IsHull (cover g r.start r.end (r ∷ []))
  IsHull-taken g k =
      IsHull-cover g (record { start = r.start; end = r.end; records = r ∷ [] }) k
        (v, ((omega arith, omega arith), tt))

  place-IsHull : (gs : List PortConflictGroup) → All IsHull gs → All IsHull (place r gs)
  unfolding place merge_groups
  place-IsHull [] k = ((v, ((omega arith, omega arith), tt)), tt)
  place-IsHull (g ∷ gs) k = elim (Bool-cases (meets r g)) [
    | inl e ↦
        let t = cover g r.start r.end (r ∷ []) in
        rw e (merge_rest-IsHull r t gs (IsHull-taken g k.0) k.1, merge_rest-All r IsHull t gs k.1)
    | inr e ↦ rw e (k.0, place-IsHull gs k.1)
  ]

group_ranges-Separate :
    (rs : List PortRangeRecord) (gs : List PortConflictGroup)
    → All IsRange rs
    → All IsHull gs
    → AllSeparate gs
    → All IsHull (group_ranges rs gs) × AllSeparate (group_ranges rs gs)
unfolding group_ranges
group_ranges-Separate [] gs v k d = (k, d)
group_ranges-Separate (r ∷ rs) gs v k d =
    group_ranges-Separate rs (place r gs) v.1 (place-IsHull r v.0 gs k)
      (place-AllSeparate r v.0 gs k d)

-- No record of the one group shares a port with a record of the other.
abbrev pub RecordsApart : PortConflictGroup → PortConflictGroup → Type 0
RecordsApart g h = All (λ r. All (Apart r) h.records) g.records

abbrev pub AllRecordsApart : List PortConflictGroup → Type 0
AllRecordsApart [] = Unit
AllRecordsApart (g ∷ gs) = All (RecordsApart g) gs × AllRecordsApart gs

Separate-Apart :
    (g h : PortConflictGroup) (r s : PortRangeRecord)
    → Separate g h
    → Within g r
    → Within h s
    → Apart r s
Separate-Apart g h r s d a b p (x, y) (x', y') = omega arith

Separate-RecordsApart :
    (g h : PortConflictGroup) → Separate g h → IsHull g → IsHull h → RecordsApart g h
Separate-RecordsApart g h d k l =
    All-imp (λ r a. All-imp (λ s b. Separate-Apart g h r s d a b) h.records l.1) g.records k.1

All-RecordsApart :
    (g : PortConflictGroup) (gs : List PortConflictGroup)
    → IsHull g
    → All IsHull gs
    → All (Separate g) gs
    → All (RecordsApart g) gs
All-RecordsApart g [] k l d = tt
All-RecordsApart g (h ∷ gs) k l d =
    (Separate-RecordsApart g h d.0 k l.0, All-RecordsApart g gs k l.1 d.1)

AllSeparate-AllRecordsApart :
    (gs : List PortConflictGroup) → All IsHull gs → AllSeparate gs → AllRecordsApart gs
AllSeparate-AllRecordsApart [] k d = tt
AllSeparate-AllRecordsApart (g ∷ gs) k d =
    (All-RecordsApart g gs k.0 k.1 d.0, AllSeparate-AllRecordsApart gs k.1 d.1)

-- For ranges whose start is at most their end, the groups hold every record exactly once, each
-- record lies in the range of its group, and records of two groups have no port in common: records
-- that share a port are in one group.
pub group_ranges_lem :
    (rs : List PortRangeRecord)
    → All IsRange rs
    → Perm (all_records (group_ranges rs [])) rs
      × All IsHull (group_ranges rs [])
      × AllRecordsApart (group_ranges rs [])
group_ranges_lem rs v =
    let (hulls, separate) = group_ranges-Separate rs [] v tt tt in
    (
      rw (append-nil rs) at (group_ranges-perm rs []),
      hulls,
      AllSeparate-AllRecordsApart _ hulls separate,
    )
