-- ===== src/Tests/Ports.antt =====
-- Runs of common/portmap/portmap.go.
use mathlib.Core.List.{Perm}
use kknode.Base.{String, none, some, ◌≡◌, refl, ◌↔◌, ◌⊎◌, true, List, [], ◌∷◌, map, All, arith}
use kknode.Base.Int.{pos, ◌≤ℤ◌}
use kknode.Base.Result.{ok}
use kknode.Base.Text.{itoa, atoi, cut, trim_space}
use kknode.Check.{Backend, no_conflict, check_command}
use kknode.Check.Uses.{Peaceful, all_protocols}
use kknode.Check.Conflicts.{check_command-no_conflict_iff}
use kknode.Panel.{ServerConfigResponse}
use kknode.Tests.Accounting.{blank_protocol}
use kknode.Portmap.{
  PortRangeRecord, parse_hop_ports, find_all_conflicts, group_ranges, group_hosts, shown_label,
  check_range,
}
use kknode.Portmap.Overlap.{find_all_conflicts-eq-nil_iff}
use kknode.Portmap.Ports.{IsRange, Distinct}
use kknode.Portmap.Groups.{all_records, IsHull}
use kknode.Portmap.Groups.Apart.{AllRecordsApart, group_ranges_lem}
use kknode.Portmap.Hosts.{Once, labels_of, of_host, group_hosts_lem}
use kknode.Portmap.Parse.{parse_hop_ports_range, parse_hop_ports-print}

abbrev hop : PortRangeRecord
hop = record { start = pos 100; end = pos 200; host = "a"; label = "hysteria2" }

abbrev web : PortRangeRecord
web = record { start = pos 443; end = pos 443; host = "a"; label = "vless" }

abbrev clash : PortRangeRecord
clash = record { start = pos 150; end = pos 150; host = "b"; label = "trojan" }

abbrev three : List PortRangeRecord
three = hop ∷ web ∷ clash ∷ []

three-All : All IsRange three
three-All = (omega arith, (omega arith, (omega arith, tt)))

find_all_conflicts-eq-nil_iff_example : (find_all_conflicts three ≡ []) ↔ Distinct three
find_all_conflicts-eq-nil_iff_example = find_all_conflicts-eq-nil_iff three three-All

group_ranges_lem_example :
    Perm (all_records (group_ranges three [])) three
    × All IsHull (group_ranges three [])
    × AllRecordsApart (group_ranges three [])
group_ranges_lem_example = group_ranges_lem three three-All

group_hosts_lem_example :
    Once (group_hosts true three [])
    × ((h : String)
        → labels_of h (group_hosts true three []) ≡ map (shown_label true) (of_host h three))
group_hosts_lem_example = group_hosts_lem true three

hop_text : parse_hop_ports " 20000 - 30000 " ≡ ok (pos 20000, pos 30000)
unfolding parse_hop_ports check_range trim_space cut atoi
hop_text = refl

parse_hop_ports_range_example :
    ((trim_space " 20000 - 30000 " ≡ "") × (pos 20000 ≡ pos 0) × (pos 30000 ≡ pos 0))
    ⊎ ((pos 1 ≤ℤ pos 20000) × (pos 20000 ≤ℤ pos 30000) × (pos 30000 ≤ℤ pos 65535))
parse_hop_ports_range_example =
    parse_hop_ports_range " 20000 - 30000 " (pos 20000) (pos 30000) hop_text

parse_hop_ports-print_example : parse_hop_ports "20000-30000" ≡ ok (pos 20000, pos 30000)
unfolding itoa
parse_hop_ports-print_example =
    parse_hop_ports-print 20000 30000 (omega arith) (omega arith) (omega arith)

abbrev plain_config : ServerConfigResponse
plain_config = record {
  code = pos 200;
  msg = "";
  config = some (record {
    traffic_report_threshold = pos 0;
    push_interval = pos 60;
    pull_interval = pos 60;
    ip_strategy = "";
    dns = none;
    block = none;
    outbound = none;
    protocols = some (record blank_protocol { enable = true; port = pos 443 } ∷ []);
    total = pos 1;
  });
}

abbrev backend : Backend
backend = record { api_host = "a"; node_json = some plain_config }

check_command-no_conflict_iff_example :
    (check_command (backend ∷ backend ∷ []) ≡ no_conflict)
    ↔ Peaceful (all_protocols (backend ∷ backend ∷ []))
check_command-no_conflict_iff_example = check_command-no_conflict_iff backend (backend ∷ [])
