-- ===== src/Portmap/Mapping.antt =====
-- common/portmap/portmap.go: the rules of hop ports that are applied and removed by calls of iptables
-- and ip6tables. Running a command is a parameter, with the state of the system that it changes.
use kknode.Base.{
  String, Bool, true, false, not, ◌&&◌, ◌||◌, List, [], ◌∷◌, Option, none, some, if◌then◌else◌,
}
use kknode.Base.Int.{ℤ, pos, eqb_ℤ}
use kknode.Base.Eq.{string_eq, ◌==◌}
use kknode.Base.Result.{Result, ok, err}
use kknode.Base.Text.{concat, itoa, split, trim_space, contains, strip_prefix, fields_of}
use kknode.Portmap.{HopError, parse_hop_ports}

-- `HopPortRange`
pub record HopPortRange : Type 0 where
  pub start_port : ℤ
  pub end_port : ℤ
  pub service_port : ℤ
  pub comment : String

-- `generateComment`
unfoldable pub generate_comment : ℤ → ℤ → ℤ → String
generate_comment service_port start_port end_port =
    concat ("FAMI_HOP_" ∷ itoa service_port ∷ "_" ∷ itoa start_port ∷ "_" ∷ itoa end_port ∷ [])

pub data ApplyError : Type 0 where
  hop_error : HopError → ApplyError
  iptables_failed : ApplyError

-- A run of a command: the state after it, and its output, `none` for an error.
abbrev pub Exec : Type 0 → Type 0
Exec S = String → List String → S → S × Option String

module _ {S : Type 0} (exec : Exec S) where
  -- `runIptables`: `true` is no error
  unfoldable pub run_iptables : String → String → ℤ → String → S → S × Bool
  run_iptables cmd port_range service_port comment s =
      let (s', out) =
        exec cmd
          ("-t"
            ∷ "nat"
            ∷ "-A"
            ∷ "PREROUTING"
            ∷ "-p"
            ∷ "udp"
            ∷ "--dport"
            ∷ port_range
            ∷ "-j"
            ∷ "DNAT"
            ∷ "--to-destination"
            ∷ concat (":" ∷ itoa service_port ∷ [])
            ∷ "-m"
            ∷ "comment"
            ∷ "--comment"
            ∷ comment
            ∷ [])
          s in
      (s', elim out [ none ↦ false | some o ↦ true ])

  -- one round of the loop of `removeByComment`, on one line of the list
  unfoldable pub remove_line : String → String → String → S → S
  remove_line cmd comment raw s =
      let line = trim_space raw in
      if line == "" || not (contains line comment) then s else elim (strip_prefix line "-A ") [
        | none ↦ s
        | some spec ↦ (exec cmd ("-t" ∷ "nat" ∷ fields_of (concat ("-D " ∷ spec ∷ []))) s).0
      ]

  unfoldable pub remove_lines : String → String → List String → S → S
  unfolding remove_line
  remove_lines cmd comment [] s = s
  remove_lines cmd comment (line ∷ lines) s =
      remove_lines cmd comment lines (remove_line cmd comment line s)

  -- `removeByComment`
  unfoldable pub remove_by_comment : String → String → S → S
  unfolding remove_lines
  remove_by_comment cmd comment s =
      let (s', out) = exec cmd ("-t" ∷ "nat" ∷ "-S" ∷ "PREROUTING" ∷ []) s in
      elim out [ none ↦ s' | some text ↦ remove_lines cmd comment (split 10 text) s' ]

  -- what `ApplyHopPorts` does once the range is known
  pub apply_range : ℤ → ℤ → ℤ → S → S × Option HopPortRange
  unfolding run_iptables remove_by_comment generate_comment
  apply_range service_port start end s =
      let comment = generate_comment service_port start end in
      let port_range = concat (itoa start ∷ ":" ∷ itoa end ∷ []) in
      let (s1, done) =
        run_iptables "iptables" port_range service_port comment
          (remove_by_comment "iptables" comment s) in
      let s2 =
        (exec "modprobe" ("ip6table_nat" ∷ []) (exec "modprobe" ("ip6_tables" ∷ []) s1).0).0 in
      let s3 =
        (run_iptables "ip6tables" port_range service_port comment
          (remove_by_comment "ip6tables" comment s2)).0 in
      if not done then (s1, none) else (
        s3,
        some (record {
          start_port = start;
          end_port = end;
          service_port = service_port;
          comment = comment;
        }),
      )

  -- `ApplyHopPorts`; `ok none` is `nil, nil`
  unfoldable pub apply_hop_ports : ℤ → String → S → S × Result ApplyError (Option HopPortRange)
  unfolding apply_range
  apply_hop_ports service_port hop_ports s = elim (parse_hop_ports hop_ports) [
    | err e ↦ (s, err (hop_error e))
    | ok (start, end) ↦
        let (s', rule) = apply_range service_port start end s in
        if eqb_ℤ start (pos 0) && eqb_ℤ end (pos 0)
        then (s, ok none)
        else (s', elim rule [ none ↦ err iptables_failed | some r ↦ ok (some r) ])
  ]

  -- `RemoveHopPorts`, which returns no error; a rule that is nil is `none`
  unfoldable pub remove_hop_ports : Option HopPortRange → S → S
  unfolding remove_by_comment
  remove_hop_ports none s = s
  remove_hop_ports (some rule) s =
      remove_by_comment "ip6tables" rule.comment (remove_by_comment "iptables" rule.comment s)

  -- `RemoveAllHopPorts`
  unfoldable pub remove_all_hop_ports : List (Option HopPortRange) → S → S
  unfolding remove_hop_ports
  remove_all_hop_ports [] s = s
  remove_all_hop_ports (r ∷ rs) s = remove_all_hop_ports rs (remove_hop_ports r s)
