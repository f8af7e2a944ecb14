-- ===== src/Server.antt =====
-- cmd/server.go: the backends of a server, one for each panel.
pub mod Loading
pub mod Running
pub mod Closing
pub mod Rounds
pub mod Reload
use kknode.Base.{
  String, Bool, true, false, not, ◌&&◌, ◌||◌, List, [], ◌∷◌, ◌++◌, Option, none, some, map,
  if◌then◌else◌,
}
use kknode.Base.Int.{ℤ}
use kknode.Base.Map.{Map}
use kknode.Base.Eq.{string_eq, ◌==◌}
use kknode.Base.Result.{Result, ok, err}
use kknode.Base.Text.Paths.{join_path}
use kknode.Panel.{Protocol, Data, NodeInfo, ServerConfigResponse}
use kknode.Panel.Config.{ConfigClient, ConfigError, ConfigReply, get_server_config}
use kknode.Panel.Secrets.{redact_cert_dns_env, merge_cert_dns_env}
use kknode.Limiter.{Registry}
use kknode.Users.{InboundManager, Core}
use kknode.Node.{node_infos}
use kknode.Inbounds.{HandlerManager}
use kknode.Inbounds.Data.{InboundDetour}
use kknode.Certs.{System, CertError, Refusals, is_exist, read_file, mkdir_all}
use kknode.Certs.Lego.{Resource, Acme}
use kknode.Links.{Closed}
use kknode.Lifecycle.{StartError, Service, World, Answers, new_controller, start_node, close_node}
use kknode.Outbounds.Custom.{InterfaceAddr, DnsConfig, CoreRule, OutboundBuilder, Parsers}
use kknode.Xray.{Engine, XrayCore, XrayError, panicked, new_core, start_core, close_core}
use kknode.Xray.Config.{LogConfig}
use kknode.Portmap.{PortRangeRecord, find_all_conflicts, format_conflicts}
use kknode.Portmap.Mapping.{HopPortRange, Exec, apply_hop_ports, remove_all_hop_ports}
use kknode.Check.{protocol_ranges}
use kknode.Server.Loading.{
  ServerApiConfig, Conf, Platform, data_of, api_dir, has_local_files, Loaded, load_remote,
  load_local, apply_rules,
}

-- What the backends share.
pub record Shared (S : Type 0) : Type 0 where
  pub registry : Registry
  pub system : System
  pub iptables : S

-- `Backend`; the users of its core are those of Users.
pub record Backend (H I : Type 0) : Type 0 where
  pub config : ServerApiConfig
  pub xray_core : XrayCore I
  pub core : Core H
  pub nodes : List Service
  pub api_dir : String
  pub hop_rules : List (Option HopPortRange)

module _ {C D R S : Type 0} (io : Platform C D R S) where
  -- the core of the users, as it is after a start
  abbrev started_core : XrayCore io.engine.Instance → Option (Core io.users.Handlers)
  started_core v = elim v.server [
    | none ↦ none
    | some i ↦ some (record {
      uid_map = [];
      counter = [];
      link_managers = [];
      closed = record { writers = []; readers = [] };
      handlers = io.handlers_of i;
    })
  ]

  abbrev pub Running : Type 0
  Running = Backend io.users.Handlers io.engine.Instance

  -- the part behind the start of the nodes
  nodes_started :
      ServerApiConfig
      → List Protocol
      → XrayCore io.engine.Instance
      → Shared S
      → List Service × World io.users.Handlers
      → Result StartError (Unit {0})
      → Shared S × Option Running
  unfolding apply_rules
  nodes_started a ps v w (nodes, world) (err _) =
      (record w { registry = world.registry; system = world.system }, none)
  nodes_started a ps v w (nodes, world) (ok _) =
      let (iptables', rules) = apply_rules io ps w.iptables in
      (
        record { registry = world.registry; system = world.system; iptables = iptables' },
        some (record {
          config = a;
          xray_core = v;
          core = world.core;
          nodes = nodes;
          api_dir = api_dir io a;
          hop_rules = rules;
        }),
      )

  -- `Start` of the nodes that `New` makes
  pub begin_nodes :
      ServerApiConfig
      → Core io.users.Handlers
      → Shared S
      → List NodeInfo
      → (List Service × World io.users.Handlers) × Result StartError (Unit {0})
  begin_nodes a core w infos =
      start_node io.users io.io io.build io.acme io.os io.self_signed (api_dir io a)
        (map (λ (n : NodeInfo). (io.answers n, new_controller a.api_host n)) infos)
        (record { registry = w.registry; core = core; system = w.system })

  -- The part behind the start of the core: the nodes and the rules. `none` skips the backend.
  start_nodes :
      ServerApiConfig
      → List Protocol
      → XrayCore io.engine.Instance
      → Core io.users.Handlers
      → Shared S
      → Option (List NodeInfo)
      → Shared S × Option Running
  unfolding nodes_started begin_nodes
  start_nodes a ps v core w none = (w, none)
  start_nodes a ps v core w (some infos) =
      let (nodes, r) = begin_nodes a core w infos in nodes_started a ps v w nodes r

  -- What one round of the loop comes to: the backend, if it runs, and its ports. `none` is a panic.
  abbrev Started : Type 0
  Started = Option (Shared S × Option Running × List PortRangeRecord)

  -- the part behind the core
  core_started :
      ServerApiConfig
      → Data
      → List Protocol
      → List PortRangeRecord
      → Shared S
      → XrayCore io.engine.Instance × Result XrayError (Unit {0})
      → Started
  unfolding start_nodes
  core_started a d ps ports w (v, err e) = elim e [ panicked ↦ none | _ ↦ some (w, none, ports) ]
  core_started a d ps ports w (v, ok _) = elim (started_core v) [
    | none ↦ some (w, none, ports)
    | some core ↦
        let (w', b) = start_nodes a ps v core w (node_infos a.server_id d) in some (w', b, ports)
  ]

  -- `Start` of the core that `New` makes
  pub begin_core :
      LogConfig
      → ServerApiConfig
      → Bool
      → ConfigClient
      → ServerConfigResponse
      → System
      → System × (XrayCore io.engine.Instance × Result XrayError (Unit {0}))
  begin_core log a is_local client cfg s =
      start_core io.builder io.parsers io.build_dns io.build_router io.addrs io.engine io.os cfg
        (api_dir io a) is_local
        (record (new_core log client (api_dir io a)) { reload_ch = some false }) s

  -- The part behind the configuration. The ports count though the backend may not start.
  launch :
      LogConfig
      → ServerApiConfig
      → Bool
      → ConfigClient
      → ServerConfigResponse
      → Shared S
      → Option (Data × List Protocol)
      → Started
  unfolding core_started begin_core
  launch log a is_local client cfg w none = some (w, none, [])
  launch log a is_local client cfg w (some (d, ps)) =
      let (system', core) = begin_core log a is_local client cfg w.system in
      core_started a d ps (protocol_ranges a.api_host ps) (record w { system = system' }) core

  -- the part behind the directory
  config_loaded :
      LogConfig
      → ServerApiConfig
      → Bool
      → Loaded io
      → Shared S
      → Result CertError (Unit {0})
      → Started
  unfolding launch
  config_loaded log a is_local loaded w (err _) = some (w, none, [])
  config_loaded log a is_local none w (ok _) = none
  config_loaded log a is_local (some (client, none)) w (ok _) = some (w, none, [])
  config_loaded log a is_local (some (client, some cfg)) w (ok _) =
      launch log a is_local client cfg w (data_of cfg)

  pub is_local : ServerApiConfig → System → Bool
  unfolding has_local_files
  is_local a s = a.local_config && has_local_files io (api_dir io a) s

  pub load_config : ServerApiConfig → System → Loaded io
  unfolding is_local load_local load_remote
  load_config a s = if is_local a s then load_local io a (api_dir io a) s else load_remote io a

  -- one round of the loop of `startBackends`
  pub start_backend : LogConfig → ServerApiConfig → Shared S → Started
  unfolding config_loaded load_config
  start_backend log a w =
      let (system', made) = mkdir_all io.os (api_dir io a) w.system in
      let parsed =
        config_loaded log a (is_local a system') (load_config a system')
          (record w { system = system' }) made in
      elim (io.hostname a.api_host) [ none ↦ some (w, none, []) | some _ ↦ parsed ]

  pub with_backend : Option Running → List Running → List Running
  with_backend none bs = bs
  with_backend (some b) bs = b ∷ bs

  pub start_each :
      LogConfig
      → List ServerApiConfig
      → Shared S
      → Option (Shared S × List Running × List PortRangeRecord)
  unfolding start_backend with_backend
  start_each log [] w = some (w, [], [])
  start_each log (a ∷ rest) w = elim (start_backend log a w) [
    | none ↦ none
    | some (w', b, ports) ↦ elim (start_each log rest w') [
      | none ↦ none
      | some (w'', bs, more) ↦ some (w'', with_backend b bs, ports ++ more)
    ]
  ]

  -- the conflicts among the ports, as they are printed
  pub warned :
      Option (Shared S × List Running × List PortRangeRecord)
      → Option (Shared S × List Running × List String)
  warned none = none
  warned (some (w, bs, ports)) = some (w, bs, format_conflicts (find_all_conflicts ports))

  -- `startBackends`, with the warnings that it prints
  pub start_backends : Conf → Shared S → Option (Shared S × List Running × List String)
  unfolding start_each warned
  start_backends c w = warned (start_each c.log_config c.nodes w)

  -- The loop that closes the backends, at the end and before a reload. An error of the core is
  -- dropped; `none` is a panic.
  pub close_backends : List Running → Shared S → Option (Shared S)
  close_backends [] w = some w
  close_backends (b ∷ bs) w =
      let world : World io.users.Handlers = record {
        registry = w.registry;
        core = b.core;
        system = w.system;
      } in
      elim (close_node io.users io.io io.build io.acme io.os io.self_signed b.api_dir b.nodes
        world) [
          | none ↦ none
          | some world' ↦
              let w' : Shared S = record {
                registry = world'.registry;
                system = world'.system;
                iptables = remove_all_hop_ports io.exec b.hop_rules w.iptables;
              } in
              let closed =
                close_core io.builder io.parsers io.build_dns io.build_router io.addrs io.engine
                  io.os b.xray_core in
              elim closed.1 [ err panicked ↦ none | _ ↦ close_backends bs w' ]
        ]

  pub reloaded :
      Option (Shared S × List Running × List String) → Option (Shared S × List Running × Bool)
  reloaded none = none
  reloaded (some (w, bs, warnings)) = some (w, bs, true)

  -- `reload`, where the configuration is `none` if it is not read; `false` is that error.
  unfoldable pub reload :
      Option Conf → List Running → Shared S → Option (Shared S × List Running × Bool)
  unfolding close_backends start_backends reloaded
  reload new_conf bs w = elim (close_backends bs w) [
    | none ↦ none
    | some w' ↦ elim new_conf [
      | none ↦ some (w', [], false)
      | some c ↦ reloaded (start_backends c w')
    ]
  ]
