-- ===== src/Tests/Streams.antt =====
-- Runs of core/custom.go (`GetCustomConfig`), of the sniffing and the routing of the dispatcher, and
-- of the calls of iptables.
use kknode.Base.{
  ℕ, String, ◌≡◌, refl, true, false, List, [], ◌∷◌, ◌++◌, Option, none, some, ◌≤◌, if◌then◌else◌,
  filter, not,
}
use kknode.Base.Int.{pos}
use kknode.Base.Eq.{string_eq, nat_eq, ◌==◌}
use kknode.Base.Result.{ok}
use kknode.Base.Text.{
  concat, fields_of, has_prefix, join, split, trim_space, contains, strip_prefix, itoa, to_lower,
  cut, atoi,
}
use kknode.Panel.{Outbound, Data}
use kknode.Portmap.{parse_hop_ports, check_range}
use kknode.Portmap.Mapping.{HopPortRange, Exec, apply_hop_ports, remove_all_hop_ports}
use kknode.Outbounds.{network_rule, build_outbound_route_rules, build_route_domains}
use kknode.Outbounds.Settings.{
  build_outbound_settings, raw_json_message, normalize_outbound_protocol,
}
use kknode.Outbounds.Stream.{build_outbound_stream_config, has_stream_field, transport_of}
use kknode.Outbounds.Custom.{
  CoreRule, dns_rule, route_rule, OutboundBuilder, Parsers, dns_config, get_custom_config,
  has_outbound_with_tag,
}
use kknode.Outbounds.Custom.Routed.{get_custom_config_lem}
use kknode.Outbounds.Custom.Tags.{Leads, Distinct}
use kknode.Sniffing.{
  SniffResult, sniffed, found, no_clue, tcp, ProtocolSniffer, sniff, FakeDns, new_sniffer,
}
use kknode.Sniffing.Reader.{Read, taken, CachedReader, sniffer, read_internal}
use kknode.Sniffing.Override.{SniffingRequest, Target, ip, domain, sniff_and_target}
use kknode.Sniffing.Ending.{bytes_before, sniffer_lem}
use kknode.Sniffing.Pending.{clueless, sniff-no_clue, sniff-new_sniffer}
use kknode.Dispatcher.Routing.{
  OutboundManager, no_route, picks, dispatched, closed, routed_dispatch,
}
use kknode.Tests.Settings.{blank_outbound}

program : Unit {0}
unfolding fields_of has_prefix join split trim_space contains strip_prefix itoa to_lower cut atoi
    parse_hop_ports apply_hop_ports remove_all_hop_ports build_outbound_route_rules
    build_route_domains build_outbound_settings build_outbound_stream_config dns_config
    get_custom_config sniff new_sniffer sniffer read_internal sniff_and_target routed_dispatch
    raw_json_message normalize_outbound_protocol has_stream_field transport_of has_outbound_with_tag
    check_range
program = tt

abbrev pub tagged : OutboundBuilder
tagged = record { Built = String; build = λ d. some d.tag; tag_of = λ t. t }

abbrev pub parsers : Parsers
parsers = record {
  valid = λ s. true;
  unmarshal = λ s. none;
  parse_cidr = λ s. false;
  parse_ip = λ s. false;
}

-- Two outbounds of one name: the second is dropped, its rules are not.
abbrev exit_outbound : Outbound
exit_outbound = record blank_outbound { name = "exit"; protocol = "direct"; rules = "all" ∷ [] }

abbrev pub panel_data : Data
panel_data = record {
  traffic_report_threshold = pos 0;
  push_interval = pos 60;
  pull_interval = pos 60;
  ip_strategy = "";
  dns = none;
  block = none;
  outbound = some (exit_outbound ∷ exit_outbound ∷ []);
  protocols = none;
  total = pos 0;
}

abbrev rules : List CoreRule
rules = dns_rule ∷ route_rule (network_rule "exit") ∷ route_rule (network_rule "exit") ∷ []

abbrev outs : List (Option String)
outs = some "Default" ∷ some "block" ∷ some "dns_out" ∷ some "exit" ∷ []

configured :
    get_custom_config tagged parsers (λ c. some c) (λ r. some r) none panel_data
    ≡ ok (dns_config panel_data false, outs, rules)
unfolding program
configured = refl

get_custom_config_lem_example :
    (rs : List CoreRule) × (some rs ≡ some rules)
    × Leads tagged parsers outs rs
    × Distinct tagged parsers outs
get_custom_config_lem_example =
    get_custom_config_lem tagged parsers (λ d o e. cc) refl refl refl (λ c. some c) (λ r. some r)
      none panel_data configured

-- A sniffer that wants to see more than one byte.
abbrev http_sniffer : ProtocolSniffer
http_sniffer = record {
  sniff = λ p. elim p [
    | none ↦ no_clue
    | some b ↦ if b == "G" then no_clue else found (sniffed "http1" "example.org")
  ];
  metadata_sniffer = false;
  network = tcp;
}

abbrev two_bytes : ℕ → Read
two_bytes n = taken 1000 (if 0 == n then "G" else "E")

sniffed_twice :
    sniffer two_bytes 32768 false tcp (http_sniffer ∷ [])
    ≡ some (record { cache = "GE"; reads = 2 }, some (sniffed "http1" "example.org"))
unfolding program
sniffed_twice = refl

sniffer_lem_example :
    (out : CachedReader × Option SniffResult) × (sniffer two_bytes 32768 false tcp
        (http_sniffer ∷ [])
      ≡ some out)
    × (out.0.reads ≤ 2)
    × ((elim (read_internal out.0).1 [ none ↦ "" | some bytes ↦ bytes ])
        ≡ bytes_before two_bytes out.0.reads)
    × ((read_internal out.0).0.cache ≡ "")
    × ((read_internal out.0).0.reads ≡ out.0.reads)
sniffer_lem_example = sniffer_lem two_bytes 32768 false tcp (http_sniffer ∷ [])

sniff-no_clue_example : (sniff (http_sniffer ∷ []) "G" tcp).0 ≡ clueless tcp "G" (http_sniffer ∷ [])
unfolding program
sniff-no_clue_example = sniff-no_clue (http_sniffer ∷ []) "G" tcp refl

abbrev fake_dns : FakeDns
fake_dns = record { domain = "example.org"; in_pool = some true }

sniff-new_sniffer_example :
    (sniff (new_sniffer (some fake_dns) tcp (http_sniffer ∷ [])) "GE" tcp).1
    ≡ (sniff (http_sniffer ∷ []) "GE" tcp).1
sniff-new_sniffer_example = sniff-new_sniffer fake_dns tcp (http_sniffer ∷ []) "GE" tcp (λ e. cc)

abbrev request : SniffingRequest
request = record {
  enabled = true;
  metadata_only = false;
  route_only = false;
  override_destination_for_protocol = "http" ∷ "tls" ∷ [];
  exclude_for_domain = none;
  exclude_for_ip = none;
}

abbrev session : Target
session = record {
  protocol = "";
  original_target = ip "1.2.3.4";
  target = ip "1.2.3.4";
  route_target = none;
}

overridden :
    sniff_and_target
      (λ d. domain d)
      none
      two_bytes
      32768
      request
      tcp
      (http_sniffer ∷ [])
      session
      (ip "1.2.3.4")
    ≡ some (
      record { cache = "GE"; reads = 2 },
      record session { protocol = "http1"; target = domain "example.org" },
      domain "example.org",
    )
unfolding program
overridden = refl

abbrev outbounds : OutboundManager
outbounds = record {
  Handler = String;
  get_handler = λ tag. if tag == "warp" then some "warp" else none;
  get_default_handler = some "Default";
  tag_of = λ h. h;
  panics = λ h. false;
}

routed :
    (routed_dispatch outbounds "" no_route "in" ≡ dispatched "Default" (some "in >> Default") false)
    × (routed_dispatch outbounds "" (picks (record { outbound_tag = "warp"; rule_tag = "" })) "in"
        ≡ dispatched "warp" (some "in -> warp") false)
    × (routed_dispatch outbounds "gone" no_route "in" ≡ closed)
unfolding program
routed = (refl, refl, refl)

abbrev show : List String → List String
show [] = "" ∷ []
show (r ∷ rs) = concat ("-A PREROUTING " ∷ r ∷ []) ∷ show rs

-- A chain of rules: `-S` prints it, `-A` adds to its end, `-D` takes a rule out.
abbrev chain : Exec (List String)
chain cmd (t ∷ n ∷ a ∷ p ∷ args) s =
    let rule = join " " args in
    if not (cmd == "iptables")
    then (s, none)
    else if a == "-S"
    then (s, some (join "\n" (show s)))
    else if a == "-A"
    then (s ++ rule ∷ [], some "")
    else (filter (λ r. not (r == rule)) s, some "")
chain cmd args s = (s, none)

abbrev hop_rule : HopPortRange
hop_rule = record {
  start_port = pos 100;
  end_port = pos 200;
  service_port = pos 443;
  comment = "FAMI_HOP_443_100_200";
}

abbrev mapped : List String
mapped =
    "-p udp --dport 100:200 -j DNAT --to-destination :443 -m comment --comment FAMI_HOP_443_100_200"
    ∷ []

-- A second application does not add the rule again.
applied :
    (apply_hop_ports chain (pos 443) "100-200" [] ≡ (mapped, ok (some hop_rule)))
    × ((apply_hop_ports chain (pos 443) "100-200" mapped).0 ≡ mapped)
    × (remove_all_hop_ports chain (some hop_rule ∷ []) mapped ≡ [])
unfolding program
applied = (refl, refl, refl)
