-- ===== src/Portmap/Groups/Merging.antt =====
-- What the merging of groups keeps, where a record is taken.
use kknode.Base.{◌≡◌, inl, inr, true, false, List, [], ◌∷◌, All, All-imp, arith, Bool-cases}
use kknode.Base.Int.{◌≤ℤ◌}
use kknode.Portmap.{PortRangeRecord, PortConflictGroup, meets, cover, merge_rest}
use kknode.Portmap.Ports.{IsRange}
use kknode.Portmap.Groups.{
  Separate, AllSeparate, Within, IsHull, Separate-cover, Within-cover, IsHull-cover,
}

abbrev pub Misses : PortRangeRecord → PortConflictGroup → Type 0
Misses r h = meets r h ≡ false

pub Separate-symm : (g h : PortConflictGroup) → Separate g h → Separate h g
Separate-symm g h s = omega arith

module _ (r : PortRangeRecord) where
  pub merge_rest-All {κ} :
      (P : PortConflictGroup → Type κ) (t : PortConflictGroup) (gs : List PortConflictGroup)
      → All P gs
      → All P (merge_rest r t gs).1
  unfolding merge_rest
  merge_rest-All P t [] h = tt
  merge_rest-All P t (g ∷ gs) h = elim (Bool-cases (meets r g)) [
    | inl e ↦ rw e (merge_rest-All P t gs h.1)
    | inr e ↦ rw e (h.0, merge_rest-All P t gs h.1)
  ]

  pub merge_rest-Misses :
      (t : PortConflictGroup) (gs : List PortConflictGroup) → All (Misses r) (merge_rest r t gs).1
  unfolding merge_rest
  merge_rest-Misses t [] = tt
  merge_rest-Misses t (g ∷ gs) = elim (Bool-cases (meets r g)) [
    | inl e ↦ rw e (merge_rest-Misses t gs)
    | inr e ↦ rw (e, merge_rest) (e, merge_rest-Misses t gs)
  ]

  pub merge_rest-AllSeparate :
      (t : PortConflictGroup) (gs : List PortConflictGroup)
      → AllSeparate gs
      → AllSeparate (merge_rest r t gs).1
  unfolding merge_rest
  merge_rest-AllSeparate t [] h = tt
  merge_rest-AllSeparate t (g ∷ gs) h = elim (Bool-cases (meets r g)) [
    | inl e ↦ rw e (merge_rest-AllSeparate t gs h.1)
    | inr e ↦ rw e (merge_rest-All (Separate g) t gs h.0, merge_rest-AllSeparate t gs h.1)
  ]

  pub merge_rest-Within :
      (t : PortConflictGroup) (gs : List PortConflictGroup)
      → Within t r
      → Within (merge_rest r t gs).0 r
  unfolding merge_rest
  merge_rest-Within t [] h = h
  merge_rest-Within t (g ∷ gs) h = elim (Bool-cases (meets r g)) [
    | inl e ↦ rw e (Within-cover _ g.start g.end g.records r (merge_rest-Within t gs h))
    | inr e ↦ rw e (merge_rest-Within t gs h)
  ]

  pub merge_rest-IsHull :
      (t : PortConflictGroup) (gs : List PortConflictGroup)
      → IsHull t
      → All IsHull gs
      → IsHull (merge_rest r t gs).0
  unfolding merge_rest
  merge_rest-IsHull t [] h k = h
  merge_rest-IsHull t (g ∷ gs) h k = elim (Bool-cases (meets r g)) [
    | inl e ↦ rw e (IsHull-cover _ g (merge_rest-IsHull t gs h k.1) k.0)
    | inr e ↦ rw e (merge_rest-IsHull t gs h k.1)
  ]

  module _ (v : IsRange r) where
    -- A group apart from the target and from all that may be merged stays apart.
    pub merge_rest-Separate_one :
        (t h : PortConflictGroup) (gs : List PortConflictGroup)
        → h.start ≤ℤ h.end
        → Misses r h
        → Within t r
        → Separate t h
        → All (λ g. Separate g h) gs
        → Separate (merge_rest r t gs).0 h
    unfolding merge_rest
    merge_rest-Separate_one t h [] w m c s a = s
    merge_rest-Separate_one t h (g ∷ gs) w m c s a =
        let ih = merge_rest-Separate_one t h gs w m c s a.1 in
        elim (Bool-cases (meets r g)) [
          | inl e ↦
              rw e (Separate-cover r _ g h g.records v w (merge_rest-Within t gs c) m e ih a.0)
          | inr e ↦ rw e ih
        ]

    All-Separate-cover :
        (t g : PortConflictGroup) (hs : List PortConflictGroup)
        → Within t r
        → meets r g ≡ true
        → All IsHull hs
        → All (Misses r) hs
        → All (Separate t) hs
        → All (Separate g) hs
        → All (Separate (cover t g.start g.end g.records)) hs
    All-Separate-cover t g [] w e k m s u = tt
    All-Separate-cover t g (h ∷ hs) w e k m s u = (
      Separate-cover r t g h g.records v k.0.0 w m.0 e s.0 u.0,
      All-Separate-cover t g hs w e k.1 m.1 s.1 u.1,
    )

    pub merge_rest-Separate :
        (t : PortConflictGroup) (gs : List PortConflictGroup)
        → Within t r
        → All IsHull gs
        → AllSeparate gs
        → All (λ h. Misses r h → Separate t h) gs
        → All (Separate (merge_rest r t gs).0) (merge_rest r t gs).1
    unfolding merge_rest
    merge_rest-Separate t [] c k d a = tt
    merge_rest-Separate t (g ∷ gs) c k d a =
        let ih = merge_rest-Separate t gs c k.1 d.1 a.1 in
        elim (Bool-cases (meets r g)) [
          | inl e ↦ rw e (
              All-Separate-cover _ g _ (merge_rest-Within t gs c) e (merge_rest-All IsHull t gs k.1)
                (merge_rest-Misses t gs) ih (merge_rest-All (Separate g) t gs d.0))
          | inr e ↦ rw e (
            merge_rest-Separate_one t g gs k.0.0 e c (a.0 e)
                (All-imp (λ h s. Separate-symm g h s) gs d.0),
            ih,
          )
        ]
