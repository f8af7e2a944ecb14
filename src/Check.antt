-- ===== src/Check.antt =====
-- cmd/check.go, and the same loop in `startBackends` of cmd/server.go: the ports that the protocols
-- of all backends use, and the command that looks for conflicts among them. Of a backend the model
-- has its host and what is decoded of its file `node.json`.
pub mod Ranges
pub mod Uses
pub mod Conflicts
use kknode.Base.{
  String, Bool, true, false, not, List, [], ◌∷◌, ◌++◌, Option, none, some, if◌then◌else◌,
}
use kknode.Base.Int.{ℤ, pos, ltb_ℤ}
use kknode.Base.Eq.{string_eq, ◌==◌}
use kknode.Base.Result.{ok, err}
use kknode.Base.Text.{concat}
use kknode.Panel.{Protocol, ServerConfigResponse}
use kknode.Portmap.{PortRangeRecord, parse_hop_ports, find_all_conflicts, format_conflicts}

pub record Backend : Type 0 where
  pub api_host : String
  -- `none` where the file is missing or does not decode
  pub node_json : Option ServerConfigResponse

abbrev pub protocols_in : Backend → List Protocol
protocols_in b = elim b.node_json [
  | none ↦ []
  | some c ↦ elim c.config [ none ↦ [] | some d ↦ elim d.protocols [ none ↦ [] | some ps ↦ ps ] ]
]

pub hop_ranges : String → Protocol → List PortRangeRecord
hop_ranges host p =
    if not (p.hop_ports == "")
    then elim (parse_hop_ports p.hop_ports) [
      | err _ ↦ []
      | ok (start, end) ↦
          if ltb_ℤ (pos 0) start
          then record {
            start = start;
            end = end;
            host = host;
            label = concat (p.node_type ∷ "/hop_ports" ∷ []);
          }
            ∷ []
          else []
    ]
    else []

pub protocol_ranges : String → List Protocol → List PortRangeRecord
unfolding hop_ranges
protocol_ranges host [] = []
protocol_ranges host (p ∷ ps) =
    if not p.enable
    then protocol_ranges host ps
    else record {
      start = p.port;
      end = p.port;
      host = host;
      label = concat (p.node_type ∷ "/port" ∷ []);
    }
        ∷ hop_ranges host p
      ++ protocol_ranges host ps

pub used_ranges : List Backend → List PortRangeRecord
unfolding protocol_ranges
used_ranges [] = []
used_ranges (b ∷ bs) = protocol_ranges b.api_host (protocols_in b) ++ used_ranges bs

-- What the command prints; it exits with an error on conflicts.
pub data Outcome : Type 0 where
  no_nodes : Outcome
  no_conflict : Outcome
  warnings : List String → Outcome

unfoldable pub check_command : List Backend → Outcome
unfolding used_ranges
check_command [] = no_nodes
check_command (b ∷ bs) =
    let conflicts = find_all_conflicts (used_ranges (b ∷ bs)) in
    elim conflicts [ [] ↦ no_conflict | c ∷ cs ↦ warnings (format_conflicts (c ∷ cs)) ]
