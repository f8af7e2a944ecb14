-- ===== src/Tests/Settings.antt =====
-- Runs of api/panel/server.go, core/custom.go and common/task/task.go.
use kknode.Base.{
  String, ◌≡◌, refl, ap, sym, ◌∙◌, inl, inr, Bool, true, false, [], ◌∷◌, ◌++◌, none, some, All,
  Member, arith, if◌then◌else◌,
}
use kknode.Base.Int.{pos}
use kknode.Base.Result.{ok}
use kknode.Base.Text.{to_lower, trim_space, has_prefix, cut, split}
use kknode.Panel.{Protocol, ServerConfigResponse, Outbound}
use kknode.Panel.Secrets.{redact_cert_dns_env, merge_cert_dns_env}
use kknode.Panel.Secrets.Restore.{Agree, protocols_of, merge-redact_cert_dns_env}
use kknode.Panel.Config.{
  ConfigClient, ConfigReply, get_server_config, HasBody, get_server_config-again,
}
use kknode.Outbounds.{
  build_route_domains, has_text, route_domain, network_rule, domain_rule, ip_rule,
  build_outbound_route_rules, after_ip,
}
use kknode.Outbounds.Domains.{NoRepeat, asked, build_route_domains_lem}
use kknode.Outbounds.Rules.{
  kind, kinds, takes_all, rule_of, domains_of, addresses_of, build_outbound_route_rules_lem,
}
use kknode.Outbounds.Settings.{normalize_outbound_protocol, build_outbound_settings}
use kknode.Outbounds.Settings.Supported.{made, build_outbound_settings-made}
use kknode.Outbounds.Stream.{build_outbound_stream_config, transport_of}
use kknode.Outbounds.Stream.Accepted.{is_ok, build_outbound_stream_config-is_ok}
use kknode.Task.{
  resting, waiting, executing, Task, new_task, start, safe_stop, call_start, call_close, selects,
  fires, run_ends, Reaches, begin, next,
}
use kknode.Task.Stopping.{Hears, Told, Reaches-Told}
use kknode.Tests.Accounting.{blank_protocol}

program : Unit {0}
unfolding to_lower trim_space has_prefix cut split build_route_domains route_domain kind kinds
    after_ip normalize_outbound_protocol transport_of
program = tt

abbrev certified : Protocol
certified = record blank_protocol { node_type = "trojan"; cert_dns_env = "TOKEN=1" }

abbrev pub config : ServerConfigResponse
config = record {
  code = pos 200;
  msg = "";
  config = some (record {
    traffic_report_threshold = pos 0;
    push_interval = pos 60;
    pull_interval = pos 60;
    ip_strategy = "";
    dns = none;
    block = none;
    outbound = none;
    protocols = some (certified ∷ []);
    total = pos 1;
  });
}

certified-Agree : Agree (certified ∷ [])
certified-Agree p q (inl a) (inl b) e = ap (λ x. x.cert_dns_env) (sym a ∙ b)
certified-Agree p q (inr a) n e = absurd a.lower
certified-Agree p q (inl a) (inr b) e = absurd b.lower

merge-redact_cert_dns_env_example :
    (merge_cert_dns_env (redact_cert_dns_env (some config)).0 (redact_cert_dns_env (some config)).1
      ≡ some config)
    × All (λ p. p.cert_dns_env ≡ "") (protocols_of (redact_cert_dns_env (some config)).0)
merge-redact_cert_dns_env_example = merge-redact_cert_dns_env (some config) certified-Agree

abbrev pub reply : ConfigReply
reply = record { failed = false; status = 200; body = "{}"; etag = "v1" }

abbrev pub client : ConfigClient
client = record { server_config_etag = ""; response_body_hash = "" }

reply-HasBody : HasBody reply
reply-HasBody = (refl, omega arith, omega arith)

-- The body does not decode, and the second call does not say so.
get_server_config-again_example :
    let c' = (get_server_config (λ s. s) (λ s. none) reply client).0 in
    get_server_config (λ s. s) (λ s. none) reply c' ≡ (c', ok none)
get_server_config-again_example =
    get_server_config-again (λ s. s) (λ s. none) reply client reply-HasBody (λ e. cc)

build_route_domains_lem_example :
    NoRepeat (build_route_domains ("suffix:a.com" ∷ "b.com" ∷ "suffix: a.com" ∷ []))
    × ((v : String)
        → has_text v (build_route_domains ("suffix:a.com" ∷ "b.com" ∷ "suffix: a.com" ∷ []))
          ≡ asked v ("suffix:a.com" ∷ "b.com" ∷ "suffix: a.com" ∷ []))
build_route_domains_lem_example =
    build_route_domains_lem ("suffix:a.com" ∷ "b.com" ∷ "suffix: a.com" ∷ [])

abbrev no_parse : String → Bool
no_parse s = false

build_outbound_route_rules_lem_example :
    build_outbound_route_rules no_parse no_parse ("b.com" ∷ " ALL " ∷ []) "out" ≡ (
      if takes_all (kinds no_parse no_parse ("b.com" ∷ " ALL " ∷ []))
      then network_rule "out" ∷ []
      else rule_of domain_rule
          (build_route_domains (domains_of (kinds no_parse no_parse ("b.com" ∷ " ALL " ∷ []))))
          "out"
        ++ rule_of ip_rule (addresses_of (kinds no_parse no_parse ("b.com" ∷ " ALL " ∷ []))) "out")
build_outbound_route_rules_lem_example =
    build_outbound_route_rules_lem no_parse no_parse ("b.com" ∷ " ALL " ∷ []) "out"

abbrev started : Task
started = record { running = true; stop = 1; closed = []; loops = waiting 1 ∷ [] }

started-Reaches : Reaches started
unfolding start
started-Reaches =
    let first = start false new_task in
    next first started (next new_task first begin (call_start false new_task))
      (selects first [] [] refl)

Reaches-Told_example :
    (started.running ≡ true → ¬ Member started.stop started.closed)
    × All (Hears started) started.loops
    × All (Told (safe_stop started)) (safe_stop started).loops
Reaches-Told_example = Reaches-Told started started-Reaches

-- A task that is closed while it executes and started again has two goroutines from then on.
abbrev doubled : Task
doubled = record { running = true; stop = 2; closed = 1 ∷ []; loops = waiting 2 ∷ waiting 2 ∷ [] }

doubled-Reaches : Reaches doubled
unfolding start safe_stop
doubled-Reaches =
    let busy : Task = record started { loops = executing ∷ [] } in
    let shut = safe_stop busy in
    let again = start false shut in
    let rested : Task = record again { loops = resting ∷ resting ∷ [] } in
    let one : Task = record again { loops = waiting 2 ∷ resting ∷ [] } in
    next one doubled
      (next rested one
        (next again rested
          (next shut again
            (next busy shut (next started busy started-Reaches (fires started 1 [] [] refl))
              (call_close busy))
            (call_start false shut))
          (run_ends again (resting ∷ []) [] refl))
        (selects rested [] (resting ∷ []) refl))
      (selects one (waiting 2 ∷ []) [] refl)

abbrev pub blank_outbound : Outbound
blank_outbound = record {
  name = "";
  protocol = "";
  address = "";
  port = pos 0;
  user = "";
  password = "";
  uuid = "";
  cipher = "";
  security = "";
  sni = "";
  allow_insecure = false;
  fingerprint = "";
  transport = "";
  host = "";
  path = "";
  service_name = "";
  flow = "";
  uot = false;
  uot_version = pos 0;
  congestion_controller = "";
  udp_stream = false;
  reduce_rtt = false;
  heartbeat = pos 0;
  reality_public_key = "";
  reality_short_id = "";
  spider_x = "";
  settings = "";
  stream_settings = "";
  rules = [];
}

build_outbound_settings-made_example :
    made (build_outbound_settings no_parse (record blank_outbound { protocol = "VMess " })) ≡ true
unfolding program
build_outbound_settings-made_example =
    build_outbound_settings-made no_parse (record blank_outbound { protocol = "VMess " })

build_outbound_stream_config-is_ok_example :
    is_ok (
      build_outbound_stream_config
        (λ s. none)
        (record blank_outbound { protocol = "vless"; security = "TLS"; transport = "quic" }))
    ≡ false
unfolding program
build_outbound_stream_config-is_ok_example =
    build_outbound_stream_config-is_ok (λ s. none)
      (record blank_outbound { protocol = "vless"; security = "TLS"; transport = "quic" })
