-- ===== src/Tests/Servers.antt =====
-- Runs of cmd/server.go.
use kknode.Base.{String, Bool, true, false, List, [], ◌∷◌, none, some, map, ◌≡◌, refl}
use kknode.Base.Int.{pos}
use kknode.Base.Map.{load, store, delete}
use kknode.Base.Text.Paths.{join_path, hex_of, dir_of}
use kknode.Base.Text.Base64.{encode}
use kknode.Base.Text.{
  has_prefix, itoa, join, split, contains, fields_of, trim_space, strip_prefix, to_lower, cut,
}
use kknode.Panel.Client.{get_user_list}
use kknode.Panel.Config.{get_server_config}
use kknode.Panel.Secrets.{redact_cert_dns_env, merge_cert_dns_env}
use kknode.Limiter.{new_limiter, add_limiter}
use kknode.Users.{add_users}
use kknode.Users.Accounts.{build_users}
use kknode.Node.{node_infos, build_node_tag}
use kknode.Inbounds.{complete, build_inbound, cert_path, add_node, del_node}
use kknode.Inbounds.Protocols.{build_trojan}
use kknode.Certs.{is_exist, check_path, write_file, read_file, mkdir_all}
use kknode.Certs.Lego.{new_lego, create_cert}
use kknode.Certs.Request.{request_cert}
use kknode.Lifecycle.{
  close_node, close_controller, new_controller, start_controller, start_node, start_tasks,
}
use kknode.Outbounds.Custom.{get_custom_config, dns_config}
use kknode.Xray.{new_core, start_core, close_core}
use kknode.Xray.Config.{get_core_config, core_config_of}
use kknode.Portmap.Mapping.{apply_hop_ports}
use kknode.Portmap.{parse_hop_ports}
use kknode.Task.{start}
use kknode.Panel.{ServerConfigResponse}
use kknode.Inbounds.Data.{InboundDetour}
use kknode.Outbounds.Custom.{CoreRule, DnsConfig}
use kknode.Server.{Shared, Backend, reload}
use kknode.Server.Loading.{Conf, Platform, api_dir}
use kknode.Tests.Settings.{config, reply}
use kknode.Tests.Accounting.{open_manager}
use kknode.Tests.Serving.{
  permissive, empty_system, authority, no_self_signed, tag_manager, answers, trojan_node,
}
use kknode.Tests.Streams.{tagged, parsers, panel_data}
use kknode.Tests.Cores.{engine}

program : Unit {0}
unfolding reload api_dir load store delete join_path hex_of dir_of encode has_prefix itoa join split
    contains fields_of trim_space strip_prefix to_lower cut get_user_list get_server_config
    redact_cert_dns_env merge_cert_dns_env new_limiter add_limiter add_users build_users node_infos
    build_node_tag complete build_inbound cert_path add_node build_trojan is_exist check_path
    write_file read_file mkdir_all new_lego create_cert request_cert new_controller start_controller
    start_node start_tasks get_custom_config dns_config new_core start_core get_core_config
    core_config_of apply_hop_ports parse_hop_ports start close_node close_controller del_node
    close_core
program = tt

-- A panel of one node.
abbrev panel_config : ServerConfigResponse
panel_config = record config {
  config = some (record panel_data {
    outbound = none;
    protocols = some (record trojan_node.protocol { security = "" } ∷ []);
  });
}

abbrev platform : Platform InboundDetour DnsConfig (List CoreRule) (Unit {0})
platform = record {
  users = open_manager;
  io = tag_manager;
  build = some;
  acme = authority;
  os = permissive;
  self_signed = no_self_signed;
  builder = tagged;
  parsers = parsers;
  build_dns = some;
  build_router = some;
  addrs = none;
  engine = engine;
  handlers_of = λ i. [];
  exec = λ cmd args s. (s, some "");
  sha256 = λ t. t;
  unmarshal = λ t. some panel_config;
  hostname = λ host. some host;
  reply = λ a. reply;
  answers = λ n. answers;
}

abbrev shared : Shared (Unit {0})
shared = record { registry = []; system = empty_system; iptables = tt }

abbrev conf : Conf
conf = record {
  log_config = record { level = "info"; output = ""; access = "none" };
  nodes = record { api_host = "panel"; server_id = pos 7; local_config = false } ∷ [];
}

abbrev loaded : Shared (Unit {0}) × List (Backend (List String) String) × Bool
loaded = elim (reload platform (some conf) [] shared) [ none ↦ (shared, [], false) | some r ↦ r ]

one_runs : (loaded.2 ≡ true) × (map (λ b. b.api_dir) loaded.1 ≡ "/etc/kknode/panel" ∷ [])
unfolding program
one_runs = (refl, refl)

abbrev again : Shared (Unit {0}) × List (Backend (List String) String) × Bool
again = elim (reload platform (some conf) loaded.1 loaded.0) [
  | none ↦ (shared, [], false)
  | some r ↦ r
]

one_again : (again.2 ≡ true) × (map (λ b. b.api_dir) again.1 ≡ "/etc/kknode/panel" ∷ [])
unfolding program
one_again = (refl, refl)
