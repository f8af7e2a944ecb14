-- ===== src/Xray/Config.antt =====
-- core/xray.go: the configuration of the core, which is made of what the panel sends.
use kknode.Base.{ℕ, String, Bool, true, ◌||◌, List, Option, none, some, if◌then◌else◌}
use kknode.Base.Eq.{string_eq, ◌==◌}
use kknode.Base.Result.{ok, err}
use kknode.Base.Text.Paths.{join_path}
use kknode.Panel.{ServerConfigResponse}
use kknode.Outbounds.Custom.{
  InterfaceAddr, DnsConfig, CoreRule, OutboundBuilder, Parsers, get_custom_config,
}

-- `conf.LogConfig`
pub record LogConfig : Type 0 where
  pub level : String
  pub output : String
  pub access : String

-- The policy of every user.
pub record Policy : Type 0 where
  pub handshake : ℕ
  pub connection_idle : ℕ
  pub uplink_only : ℕ
  pub downlink_only : ℕ
  pub buffer_size : ℕ
  pub stats_user_uplink : Bool
  pub stats_user_downlink : Bool

-- the `core.Config` of `getCoreConfig`, which has no inbound
pub record CoreConfig (D O R : Type 0) : Type 0 where
  pub log_level : String
  pub access_log : String
  pub error_log : String
  pub policy : Policy
  pub dns : D
  pub outbounds : List (Option O)
  pub router : R

abbrev level_policy : Policy
level_policy = record {
  handshake = 4;
  connection_idle = 30;
  uplink_only = 2;
  downlink_only = 4;
  buffer_size = 64;
  stats_user_uplink = true;
  stats_user_downlink = true;
}

-- the files of the log
error_log_of : LogConfig → String → String
error_log_of c api_dir = if c.output == "" then join_path api_dir "error.log" else c.output

access_log_of : LogConfig → String → String
access_log_of c api_dir =
    if c.access == "none" || c.access == "" then join_path api_dir "access.log" else c.access

module _ {D R : Type 0} (builder : OutboundBuilder) (parsers : Parsers)
    (build_dns : DnsConfig → Option D) (build_router : List CoreRule → Option R)
    (addrs : Option (List InterfaceAddr)) where
  -- `getCoreConfig`; `none` is a panic
  unfoldable pub get_core_config :
      LogConfig → ServerConfigResponse → String → Option (CoreConfig D builder.Built R)
  unfolding error_log_of access_log_of
  get_core_config c cfg api_dir = elim cfg.config [
    | none ↦ none
    | some d ↦ elim (get_custom_config builder parsers build_dns build_router addrs d) [
      | err e ↦ none
      | ok (dns, outbounds, router) ↦ some (record {
        log_level = c.level;
        access_log = access_log_of c api_dir;
        error_log = error_log_of c api_dir;
        policy = level_policy;
        dns = dns;
        outbounds = outbounds;
        router = router;
      })
    ]
  ]

  -- `getCoreConfig(v.Config, ...)`, which dereferences the pointer
  unfoldable pub core_config_of :
      Option LogConfig → ServerConfigResponse → String → Option (CoreConfig D builder.Built R)
  core_config_of none cfg api_dir = none
  core_config_of (some c) cfg api_dir = get_core_config c cfg api_dir
