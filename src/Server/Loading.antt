-- ===== src/Server/Loading.antt =====
-- cmd/server.go and `ApiDir` of conf/conf.go: what a backend is started from, and the rules of its
-- ports. What the parts of a backend take as parameters is in one record.
use kknode.Base.{String, Bool, not, ◌&&◌, ◌||◌, List, [], ◌∷◌, Option, none, some, if◌then◌else◌}
use kknode.Base.Int.{ℤ}
use kknode.Base.Eq.{string_eq, ◌==◌}
use kknode.Base.Result.{Result, ok, err}
use kknode.Base.Text.Paths.{join_path}
use kknode.Panel.{Protocol, Data, NodeInfo, ServerConfigResponse}
use kknode.Panel.Config.{ConfigClient, ConfigError, no_data, ConfigReply, get_server_config}
use kknode.Panel.Secrets.{redact_cert_dns_env, merge_cert_dns_env}
use kknode.Users.{InboundManager}
use kknode.Inbounds.{HandlerManager}
use kknode.Inbounds.Data.{InboundDetour}
use kknode.Certs.{System, Refusals, is_exist, read_file}
use kknode.Certs.Lego.{Resource, Acme}
use kknode.Lifecycle.{Answers}
use kknode.Outbounds.Custom.{InterfaceAddr, DnsConfig, CoreRule, OutboundBuilder, Parsers}
use kknode.Xray.{Engine}
use kknode.Xray.Config.{LogConfig}
use kknode.Portmap.Mapping.{HopPortRange, Exec, apply_hop_ports}

-- `conf.ServerApiConfig`, less the key and the timeout of the requests
pub record ServerApiConfig : Type 0 where
  pub api_host : String
  pub server_id : ℤ
  pub local_config : Bool

-- `conf.Conf`
pub record Conf : Type 0 where
  pub log_config : LogConfig
  pub nodes : List ServerApiConfig

-- What is not code of the program: xray-core, the package lego, the system and what the panels answer.
pub record Platform (C D R S : Type 0) : Type 1 where
  pub users : InboundManager
  pub io : HandlerManager C users.Handlers
  pub build : InboundDetour → Option C
  pub acme : Acme
  pub os : Refusals
  pub self_signed : String → Option Resource
  pub builder : OutboundBuilder
  pub parsers : Parsers
  pub build_dns : DnsConfig → Option D
  pub build_router : List CoreRule → Option R
  pub addrs : Option (List InterfaceAddr)
  pub engine : Engine D builder.Built R
  -- the handlers of a server that was started
  pub handlers_of : engine.Instance → users.Handlers
  pub exec : Exec S
  pub sha256 : String → String
  pub unmarshal : String → Option ServerConfigResponse
  -- `url.Parse` and `Hostname`
  pub hostname : String → Option String
  pub reply : ServerApiConfig → ConfigReply
  pub answers : NodeInfo → Answers

abbrev pub data_of : ServerConfigResponse → Option (Data × List Protocol)
data_of cfg = elim cfg.config [
  | none ↦ none
  | some d ↦ elim d.protocols [ none ↦ none | some ps ↦ some (d, ps) ]
]

module _ {C D R S : Type 0} (io : Platform C D R S) where
  -- `ApiDir`
  unfoldable pub api_dir : ServerApiConfig → String
  api_dir a = elim (io.hostname a.api_host) [
    | none ↦ join_path "/etc/kknode" "unknown"
    | some h ↦ join_path "/etc/kknode" h
  ]

  abbrev fetch : ServerApiConfig → ConfigClient × Result ConfigError (Option ServerConfigResponse)
  fetch a =
      get_server_config io.sha256 io.unmarshal (io.reply a)
        (record { server_config_etag = ""; response_body_hash = "" })

  unfoldable pub has_local_files : String → System → Bool
  has_local_files dir s =
      let exists = λ (name : String).
        not (io.os.hides (join_path dir name)) && is_exist io.os (join_path dir name) s in
      exists "node.json" && exists "core.json"

  -- What is loaded: the client, and the configuration, if there is one; no configuration skips the
  -- backend. `none` is the panic of `GetServerConfig` for an answer without data.
  abbrev pub Loaded : Type 0
  Loaded = Option (ConfigClient × Option ServerConfigResponse)

  -- the configuration from the panel
  unfoldable pub load_remote : ServerApiConfig → Loaded
  load_remote a =
      let (client, r) = fetch a in
      elim r [ err no_data ↦ none | err _ ↦ some (client, none) | ok cfg ↦ some (client, cfg) ]

  -- The configuration from the file, with the credentials that the panel has. The panel is not asked
  -- where the file cannot be used.
  unfoldable pub load_local : ServerApiConfig → String → System → Loaded
  load_local a dir s =
      let (client, r) = fetch a in
      elim (read_file io.os (join_path dir "node.json") s).1 [
        | err _ ↦ some (client, none)
        | ok text ↦ elim (io.unmarshal text) [
          | none ↦ some (client, none)
          | some cfg ↦ elim (data_of cfg) [
            | none ↦ some (client, none)
            | some _ ↦ elim r [
              | err no_data ↦ none
              | err _ ↦ some (client, some cfg)
              | ok remote ↦
                  some (client, merge_cert_dns_env (some cfg) (redact_cert_dns_env remote).1)
            ]
          ]
        ]
      ]

  -- the loop that applies the rules of Hysteria2
  unfoldable pub apply_rules : List Protocol → S → S × List (Option HopPortRange)
  apply_rules [] s = (s, [])
  apply_rules (p ∷ ps) s =
      let (s', r) = apply_hop_ports io.exec p.port p.hop_ports s in
      let (done, rules) = apply_rules ps s' in
      let skipped = apply_rules ps s in
      if not p.enable
        || p.hop_ports == ""
        || not (p.node_type == "hysteria" || p.node_type == "hysteria2")
      then skipped
      else (
        done,
        elim r [ err _ ↦ rules | ok o ↦ elim o [ none ↦ rules | some rule ↦ some rule ∷ rules ] ],
      )
