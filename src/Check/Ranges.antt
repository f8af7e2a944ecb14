-- ===== src/Check/Ranges.antt =====
-- The ranges that the command collects are ranges.
use kknode.Base.{
  String, ◌≡◌, refl, inl, inr, not, List, [], ◌∷◌, All, All-append, if◌then◌else◌, if-elim, arith,
}
use kknode.Base.Int.{ℤ, pos, ltb_ℤ}
use kknode.Base.Eq.{string_eq, ◌==◌}
use kknode.Base.Result.{Result, ok, err}
use kknode.Base.Text.{concat}
use kknode.Panel.{Protocol}
use kknode.Portmap.{HopError, parse_hop_ports}
use kknode.Portmap.Ports.{IsRange}
use kknode.Portmap.Parse.{parse_hop_ports_range}
use kknode.Check.{Backend, protocols_in, hop_ranges, protocol_ranges, used_ranges}

hop_ranges-All : (host : String) (p : Protocol) → All IsRange (hop_ranges host p)
unfolding hop_ranges
hop_ranges-All host p =
    if-elim (All IsRange) (not (p.hop_ports == "")) _ []
      (λ _. go (parse_hop_ports p.hop_ports) refl) (λ _. tt)
  where
    go :
        (r : Result HopError (ℤ × ℤ))
        → parse_hop_ports p.hop_ports ≡ r
        → All IsRange (elim r [
          | err _ ↦ []
          | ok (start, end) ↦
              if ltb_ℤ (pos 0) start
              then record {
                start = start;
                end = end;
                host = host;
                label = concat (p.node_type ∷ "/hop_ports" ∷ []);
              }
                ∷ []
              else []
        ])
    go (err x) e = tt
    go (ok (a, b)) e =
        if-elim (All IsRange) (ltb_ℤ (pos 0) a) _ []
          (λ h. elim (parse_hop_ports_range p.hop_ports a b e) [
            | inl z ↦ (ground (arith, z), tt)
            | inr z ↦ (z.1, tt)
          ])
          (λ _. tt)

protocol_ranges-All : (host : String) (ps : List Protocol) → All IsRange (protocol_ranges host ps)
unfolding protocol_ranges
protocol_ranges-All host [] = tt
protocol_ranges-All host (p ∷ ps) =
    let rest = protocol_ranges-All host ps in
    if-elim (All IsRange) (not p.enable) _ _ (λ _. rest)
      (λ _. (omega arith, All-append IsRange (hop_ranges host p) _ (hop_ranges-All host p) rest))

pub used_ranges-All : (bs : List Backend) → All IsRange (used_ranges bs)
unfolding used_ranges
used_ranges-All [] = tt
used_ranges-All (b ∷ bs) =
    All-append IsRange (protocol_ranges b.api_host (protocols_in b)) _
      (protocol_ranges-All b.api_host (protocols_in b)) (used_ranges-All bs)
