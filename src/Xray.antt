-- ===== src/Xray.antt =====
-- core/xray.go: the core of a backend, which is configured from what the panel sends and started
-- from the file that it has saved. xray-core and the encodings are parameters.
pub mod Config
pub mod Saved
pub mod Started
use kknode.Base.{
  ℕ, String, Bool, true, false, not, ◌||◌, List, [], ◌∷◌, Option, none, some, if◌then◌else◌,
}
use kknode.Base.Int.{ℤ, pos, leb_ℤ}
use kknode.Base.Eq.{string_eq, ◌==◌}
use kknode.Base.Map.{delete}
use kknode.Base.Result.{Result, ok, err}
use kknode.Base.Text.Paths.{join_path}
use kknode.Panel.{Data, ServerConfigResponse}
use kknode.Panel.Config.{ConfigClient, no_data, ConfigReply, get_server_config}
use kknode.Panel.Secrets.{redact_cert_dns_env}
use kknode.Outbounds.Custom.{
  InterfaceAddr, DnsConfig, CoreRule, CustomError, OutboundBuilder, Parsers, get_custom_config,
}
use kknode.Certs.{System, CertError, Refusals, write_file, read_file}
use kknode.Task.{Task, new_task, start, safe_stop}
use kknode.Xray.Config.{LogConfig, CoreConfig, core_config_of}

pub data XrayError : Type 0 where
  no_core_file bad_core_file not_created not_started not_closed : XrayError
  -- no data, or an error of `GetCustomConfig`, or no server to close: the program panics
  panicked : XrayError

-- xray-core and the encodings; `none` is an error.
pub record Engine (D O R : Type 0) : Type 1 where
  pub Config : Type 0
  pub Instance : Type 0
  pub encode_server : ServerConfigResponse → Option String
  pub encode_core : CoreConfig D O R → Option String
  pub decode_core : String → Option Config
  pub create : Config → Option Instance
  pub starts : Instance → Bool
  pub closes : Instance → Bool

-- `XrayCore`; a pointer, an interface or a channel that is nil is `none`. The three features are set
-- and cleared together. The task has its interval in seconds; the channel has room for one signal, and `true` is that it holds one.
pub record XrayCore (I : Type 0) : Type 0 where
  pub config : Option LogConfig
  pub client : ConfigClient
  pub api_dir : String
  pub reload_ch : Option Bool
  pub server_config_monitor_periodic : Option (ℤ × Task)
  pub server : Option I
  pub features : Bool

-- `New`
unfoldable pub new_core : {I : Type 0} → LogConfig → ConfigClient → String → XrayCore I
new_core config client api_dir = record {
  config = some config;
  client = client;
  api_dir = api_dir;
  reload_ch = none;
  server_config_monitor_periodic = none;
  server = none;
  features = false;
}

-- `os.Remove`, whose error is dropped
pub remove_file : Refusals → String → System → System
remove_file os path s = if os.refuses path then s else record s { files = delete path s.files }

-- `os.WriteFile` of a text that was encoded; no error is looked at
unfoldable pub save_text : Refusals → String → Option String → System → System
save_text os path none s = s
save_text os path (some text) s = (write_file os path text s).0

module _ {D R : Type 0} (builder : OutboundBuilder) (parsers : Parsers)
    (build_dns : DnsConfig → Option D) (build_router : List CoreRule → Option R)
    (addrs : Option (List InterfaceAddr)) (engine : Engine D builder.Built R) (os : Refusals) where
  open engine use {Config, Instance}

  -- The part of `Start` that saves `node.json`, without the credentials, and drops the old sidecar.
  unfoldable pub save_node : ServerConfigResponse → String → System → System
  unfolding remove_file save_text
  save_node cfg api_dir s =
      let s' = remove_file os (join_path api_dir "cert_env.json") s in
      elim (redact_cert_dns_env (some cfg)).0 [
        | none ↦ s'
        | some redacted ↦
            save_text os (join_path api_dir "node.json") (engine.encode_server redacted) s'
      ]

  -- the whole part that is left out for a local configuration; `false` is a panic
  unfoldable pub save_config :
      Option LogConfig → ServerConfigResponse → String → System → System × Bool
  unfolding save_node save_text core_config_of
  save_config config cfg api_dir s =
      let s' = save_node cfg api_dir s in
      elim (core_config_of builder parsers build_dns build_router addrs config cfg api_dir) [
        | none ↦ (s', false)
        | some config ↦
            (save_text os (join_path api_dir "core.json") (engine.encode_core config) s', true)
      ]

  -- `startTasks`, which is not reached without data
  unfoldable pub start_monitor : ServerConfigResponse → Option (ℤ × Task)
  start_monitor cfg = elim cfg.config [
    | none ↦ none
    | some d ↦
        some
          (if leb_ℤ d.pull_interval (pos 0) then pos 60 else d.pull_interval, start false new_task)
  ]

  -- the part behind `core.New`
  server_started :
      XrayCore Instance
      → ServerConfigResponse
      → Bool
      → Instance
      → XrayCore Instance × Result XrayError (Unit {0})
  server_started v cfg local_only server =
      let v' : XrayCore Instance = record v { server = some server } in
      if not (engine.starts server) then (v', err not_started) else (
        record v' {
          features = true;
          server_config_monitor_periodic =
              if not local_only then start_monitor cfg else v.server_config_monitor_periodic;
        },
        ok tt,
      )

  server_created :
      XrayCore Instance
      → ServerConfigResponse
      → Bool
      → Option Instance
      → XrayCore Instance × Result XrayError (Unit {0})
  unfolding server_started
  server_created v cfg local_only none = (v, err not_created)
  server_created v cfg local_only (some server) = server_started v cfg local_only server

  -- the part behind the decoding of the file
  config_decoded :
      XrayCore Instance
      → ServerConfigResponse
      → Bool
      → Option Config
      → XrayCore Instance × Result XrayError (Unit {0})
  unfolding server_created
  config_decoded v cfg local_only none = (v, err bad_core_file)
  config_decoded v cfg local_only (some file_config) =
      server_created v cfg local_only (engine.create file_config)

  -- the part behind `os.ReadFile`
  file_read :
      XrayCore Instance
      → ServerConfigResponse
      → Bool
      → Result CertError String
      → XrayCore Instance × Result XrayError (Unit {0})
  unfolding config_decoded
  file_read v cfg local_only (err e) = (v, err no_core_file)
  file_read v cfg local_only (ok text) = config_decoded v cfg local_only (engine.decode_core text)

  -- `Start`
  unfoldable pub start_core :
      ServerConfigResponse
      → String
      → Bool
      → XrayCore Instance
      → System
      → System × (XrayCore Instance × Result XrayError (Unit {0}))
  unfolding save_config file_read
  start_core cfg api_dir local_only v s =
      let (s', goes_on) = if local_only then (s, true) else save_config v.config cfg api_dir s in
      if goes_on
      then (s', file_read v cfg local_only (read_file os (join_path api_dir "core.json") s').1)
      else (s', (v, err panicked))

  -- `Close`
  unfoldable pub close_core : XrayCore Instance → XrayCore Instance × Result XrayError (Unit {0})
  close_core v =
      let monitor : Option (ℤ × Task) = elim v.server_config_monitor_periodic [
        | none ↦ none
        | some (interval, t) ↦ some (interval, safe_stop t)
      ] in
      let v' : XrayCore Instance = record v {
        config = none;
        features = false;
        server_config_monitor_periodic = monitor;
      } in
      elim v.server [
        | none ↦ (v', err panicked)
        | some server ↦ (v', if engine.closes server then ok tt else err not_closed)
      ]

-- `ServerConfigMonitor`, which always returns `nil`; `none` is the panic of `GetServerConfig`
unfoldable pub server_config_monitor :
    {I : Type 0}
    → (String → String)
    → (String → Option ServerConfigResponse)
    → ConfigReply
    → XrayCore I
    → Option (XrayCore I)
server_config_monitor sha256 unmarshal reply v =
    let (client, r) = get_server_config sha256 unmarshal reply v.client in
    let v' = record v { client = client } in
    elim r [
      | err no_data ↦ none
      | err _ ↦ some v'
      | ok new ↦ elim new [
        | none ↦ some v'
        | some cfg ↦ elim v.reload_ch [
          | none ↦ some v'
          | some queued ↦ some (record v' { reload_ch = some true })
        ]
      ]
    ]
