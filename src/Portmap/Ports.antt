-- ===== src/Portmap/Ports.antt =====
-- Ranges as sets of ports.
use kknode.Base.{◌≡◌, ◌↔◌, inl, inr, true, false, List, [], ◌∷◌, All, arith, Bool-cases}
use kknode.Base.Int.{ℤ, leb_ℤ, ◌≤ℤ◌}
use kknode.Portmap.{PortRangeRecord, overlaps}

-- A port of the record's range.
abbrev pub HasPort : PortRangeRecord → ℤ → Type 0
HasPort r p = (r.start ≤ℤ p) × (p ≤ℤ r.end)

-- No port is in both ranges.
abbrev pub Apart : PortRangeRecord → PortRangeRecord → Type 0
Apart r s = (p : ℤ) → HasPort r p → HasPort s p → ⊥

abbrev pub IsRange : PortRangeRecord → Type 0
IsRange r = r.start ≤ℤ r.end

abbrev pub Distinct : List PortRangeRecord → Type 0
Distinct [] = Unit
Distinct (r ∷ rs) = All (Apart r) rs × Distinct rs

overlap_of_port :
    (r s : PortRangeRecord) (p : ℤ)
    → HasPort r p
    → HasPort s p
    → overlaps r.start r.end s.start s.end ≡ true
overlap_of_port r s p a b = ground arith

port_of_overlap :
    (r s : PortRangeRecord)
    → IsRange r
    → IsRange s
    → overlaps r.start r.end s.start s.end ≡ true
    → (p : ℤ) × HasPort r p × HasPort s p
port_of_overlap r s hr hs h = elim (Bool-cases (leb_ℤ s.start r.start)) [
  | inl e ↦ (r.start, ground arith, ground arith)
  | inr e ↦ (s.start, ground arith, ground arith)
]

-- Two ranges overlap by the test exactly where they share a port.
pub overlaps-Apart :
    (r s : PortRangeRecord)
    → IsRange r
    → IsRange s
    → (overlaps r.start r.end s.start s.end ≡ false) ↔ Apart r s
overlaps-Apart r s hr hs = (
  λ h p a b. cc (overlap_of_port r s p a b),
  λ h. elim (Bool-cases (overlaps r.start r.end s.start s.end)) [
    | inl e ↦ let (p, a, b) = port_of_overlap r s hr hs e in absurd (h p a b)
    | inr e ↦ e
  ],
)
