-- ===== src/Server/Running.antt =====
-- What one round of `startBackends` comes to: a backend that runs, or a reason for none.
use kknode.Base.{ap, ◌⊎◌, inl, inr, String, ◌≡◌, refl, Bool, List, [], Option, none, some, All, map}
use kknode.Base.Result.{Result, ok, err}
use kknode.Panel.{Protocol, Data, NodeInfo, ServerConfigResponse}
use kknode.Panel.Config.{ConfigClient}
use kknode.Users.{Core}
use kknode.Node.{node_infos}
use kknode.Certs.{System, CertError, mkdir_all}
use kknode.Lifecycle.{Service, World, StartError, new_controller}
use kknode.Lifecycle.Running.{Settled, start_node-Settled}
use kknode.Xray.{XrayCore, XrayError, panicked}
use kknode.Xray.Config.{LogConfig}
use kknode.Xray.Started.{HasServer, start_core-HasServer}
use kknode.Portmap.{PortRangeRecord}
use kknode.Server.{
  Shared, Backend, started_core, Running, nodes_started, start_nodes, Started, core_started, launch,
  config_loaded, begin_nodes, begin_core, is_local, load_config, start_backend,
}
use kknode.Server.Loading.{ServerApiConfig, Platform, data_of, Loaded, api_dir}

-- The core of the backend has a server, and its controllers serve, unless their protocol is disabled.
abbrev pub IsRunning : {H I : Type 0} → Backend H I → Type 0
IsRunning b = HasServer b.xray_core × All Settled b.nodes

module _ {C D R S : Type 0} (io : Platform C D R S) where
  -- Why a round of the loop of `startBackends` has no backend: the start of a node fails,
  abbrev pub NodesFail :
      ServerApiConfig → Shared S → Core io.users.Handlers → Option (List NodeInfo) → Type 0
  NodesFail a w core infos =
      (infos ≡ none)
      ⊎ ((some_infos : List NodeInfo) × (infos ≡ some some_infos)
          × ((e : StartError) × ((begin_nodes io a core w some_infos).1 ≡ err e)))

  -- or that of the core,
  abbrev pub CoreFails :
      ServerApiConfig
      → Data
      → Shared S
      → XrayCore io.engine.Instance × Result XrayError (Unit {0})
      → Type 0
  CoreFails a d w (v, r) =
      ((e : XrayError) × (r ≡ err e))
      ⊎ ((core : Core io.users.Handlers) × (started_core io v ≡ some core)
          × NodesFail a w core (node_infos a.server_id d))

  -- or the configuration has no protocols,
  abbrev pub LaunchFails :
      LogConfig
      → ServerApiConfig
      → Bool
      → ConfigClient
      → ServerConfigResponse
      → Shared S
      → Option (Data × List Protocol)
      → Type 0
  LaunchFails log a l client cfg w o =
      (o ≡ none)
      ⊎ ((d : Data) × (ps : List Protocol) × (o ≡ some (d, ps))
          × CoreFails a d (record w { system = (begin_core io log a l client cfg w.system).0 })
              (begin_core io log a l client cfg w.system).1)

  -- or the directory cannot be made, or no configuration is loaded,
  abbrev pub ConfigFails :
      LogConfig
      → ServerApiConfig
      → Bool
      → Loaded io
      → Shared S
      → Result CertError (Unit {0})
      → Type 0
  ConfigFails log a l loaded w made =
      ((e : CertError) × (made ≡ err e))
      ⊎ ((client : ConfigClient) × (loaded ≡ some (client, none)))
      ⊎ ((client : ConfigClient) × (cfg : ServerConfigResponse) × (loaded ≡ some (client, some cfg))
          × LaunchFails log a l client cfg w (data_of cfg))

  -- or the URL does not parse.
  abbrev pub Skipped : LogConfig → ServerApiConfig → Shared S → Type 0
  Skipped log a w =
      let (system', made) = mkdir_all io.os (api_dir io a) w.system in
      (io.hostname a.api_host ≡ none)
      ⊎ ConfigFails log a (is_local io a system') (load_config io a system')
          (record w { system = system' }) made

  -- The backend of the configuration runs, or there is none, for a reason.
  abbrev Ran : ServerApiConfig → Type 0 → Option (Running io) → Type 0
  Ran a F none = F
  Ran a F (some b) = (b.config ≡ a) × IsRunning b

  abbrev pub Fine : ServerApiConfig → Type 0 → Type 0 → Started io → Type 0
  Fine a P F none = P
  Fine a P F (some (w, b, ports)) = Ran a F b

  -- The program can panic: `GetServerConfig` meets an answer without data, or the configuration of the
  -- core is not built.
  abbrev pub Breaks : LogConfig → ServerApiConfig → Type 0
  Breaks log a =
      (s : System) × (load_config io a s ≡ none
        ⊎ ((client : ConfigClient) × (cfg : ServerConfigResponse) × ((begin_core io log a
                (is_local io a s) client cfg s).1.1
              ≡ err panicked)))

  begin_nodes-Settled :
      (a : ServerApiConfig) (core : Core io.users.Handlers) (w : Shared S) (infos : List NodeInfo)
      → (begin_nodes io a core w infos).1 ≡ ok tt
      → All Settled (begin_nodes io a core w infos).0.0
  unfolding begin_nodes
  begin_nodes-Settled a core w infos =
      start_node-Settled io.users io.io io.build io.acme io.os io.self_signed (api_dir io a)
        (map (λ (n : NodeInfo). (io.answers n, new_controller a.api_host n)) infos)
        (record { registry = w.registry; core = core; system = w.system })

  start_nodes-Ran :
      (a : ServerApiConfig) (ps : List Protocol) (v : XrayCore io.engine.Instance)
      (core : Core io.users.Handlers) (w : Shared S) (infos : Option (List NodeInfo))
      → HasServer v
      → Ran a (NodesFail a w core infos) (start_nodes io a ps v core w infos).1
  unfolding start_nodes nodes_started
  start_nodes-Ran a ps v core w none h = inl refl
  start_nodes-Ran a ps v core w (some infos) h =
      begun (begin_nodes io a core w infos) refl (begin_nodes-Settled a core w infos)
    where
      begun :
          (o : (List Service × World io.users.Handlers) × Result StartError (Unit {0}))
          → begin_nodes io a core w infos ≡ o
          → (o.1 ≡ ok tt → All Settled o.0.0)
          → Ran a (NodesFail a w core (some infos)) (nodes_started io a ps v w o.0 o.1).1
      begun ((nodes, world), err e) q g = inr (infos, refl, (e, ap (λ x. x.1) q))
      begun ((nodes, world), ok _) q g = (refl, (h, g refl))

  settled :
      (a : ServerApiConfig) (F G : Type 0) (b : Option (Running io))
      → (F → G)
      → Ran a F b
      → Ran a G b
  settled a F G none f x = f x
  settled a F G (some b) f x = x

  core_started-Fine :
      (a : ServerApiConfig) (d : Data) (ps : List Protocol) (ports : List PortRangeRecord)
      (w : Shared S) (core : XrayCore io.engine.Instance × Result XrayError (Unit {0})) (P : Type 0)
      → (core.1 ≡ err panicked → P)
      → (core.1 ≡ ok tt → HasServer core.0)
      → Fine a P (CoreFails a d w core) (core_started io a d ps ports w core)
  unfolding core_started
  core_started-Fine a d ps ports w (v, err e) P x h = failed e (λ q. x (ap err q))
    where
      failed :
          (e : XrayError)
          → (e ≡ panicked → P)
          → Fine a P
              (CoreFails a d w (v, err e))
              (elim e [ panicked ↦ none | _ ↦ some (w, none, ports) ])
      failed panicked x = x refl
      failed e x = inl (e, refl)
  core_started-Fine a d ps ports w (v, ok _) P x h = began (started_core io v) refl
    where
      no_core : started_core io v ≡ none → ⊥
      no_core q = let (i, k) = (h refl).1 in let none_is = rw k at q in absurd (cc)

      began :
          (o : Option (Core io.users.Handlers))
          → started_core io v ≡ o
          → Fine a P (CoreFails a d w (v, ok tt)) (elim o [
            | none ↦ some (w, none, ports)
            | some core ↦
                let (w', b) = start_nodes io a ps v core w (node_infos a.server_id d) in
                some (w', b, ports)
          ])
      began none q = absurd (no_core q)
      began (some core) q =
          settled a _ _ (start_nodes io a ps v core w (node_infos a.server_id d)).1
            (λ f. inr (core, q, f))
            (start_nodes-Ran a ps v core w (node_infos a.server_id d) (h refl))

  -- A round has a backend that runs, or a reason for none.
  weaken :
      (a : ServerApiConfig) (P F G : Type 0) (o : Started io)
      → (F → G)
      → Fine a P F o
      → Fine a P G o
  weaken a P F G none f x = x
  weaken a P F G (some (w, none, ports)) f x = f x
  weaken a P F G (some (w, some b, ports)) f x = x

  begin_core-HasServer :
      (log : LogConfig) (a : ServerApiConfig) (l : Bool) (client : ConfigClient)
      (cfg : ServerConfigResponse) (s : System)
      → (begin_core io log a l client cfg s).1.1 ≡ ok tt
      → HasServer (begin_core io log a l client cfg s).1.0
  unfolding begin_core
  begin_core-HasServer log a l client cfg s =
      start_core-HasServer io.builder io.parsers io.build_dns io.build_router io.addrs io.engine
        io.os cfg l (api_dir io a) _ s

  launch-Fine :
      (log : LogConfig) (a : ServerApiConfig) (l : Bool) (client : ConfigClient)
      (cfg : ServerConfigResponse) (w : Shared S) (o : Option (Data × List Protocol)) (P : Type 0)
      → ((begin_core io log a l client cfg w.system).1.1 ≡ err panicked → P)
      → Fine a P (LaunchFails log a l client cfg w o) (launch io log a l client cfg w o)
  unfolding launch
  launch-Fine log a l client cfg w none P x = inl refl
  launch-Fine log a l client cfg w (some (d, ps)) P x =
      let (system', core) = begin_core io log a l client cfg w.system in
      let w' : Shared S = record w { system = system' } in
      weaken a P (CoreFails a d w' core) _ _ (λ f. inr (d, ps, refl, f))
        (core_started-Fine a d ps _ w' core P x (begin_core-HasServer log a l client cfg w.system))

  config_loaded-Fine :
      (log : LogConfig) (a : ServerApiConfig) (l : Bool) (loaded : Loaded io) (w : Shared S)
      (made : Result CertError (Unit {0})) (P : Type 0)
      → (loaded ≡ none → P)
      → ((client : ConfigClient) (cfg : ServerConfigResponse)
          → (begin_core io log a l client cfg w.system).1.1 ≡ err panicked
          → P)
      → Fine a P (ConfigFails log a l loaded w made) (config_loaded io log a l loaded w made)
  unfolding config_loaded
  config_loaded-Fine log a l loaded w (err e) P x y = inl (e, refl)
  config_loaded-Fine log a l none w (ok _) P x y = x refl
  config_loaded-Fine log a l (some (client, none)) w (ok _) P x y = inr (inl (client, refl))
  config_loaded-Fine log a l (some (client, some cfg)) w (ok _) P x y =
      weaken a P (LaunchFails log a l client cfg w (data_of cfg)) _ _
        (λ f. inr (inr (client, cfg, refl, f)))
        (launch-Fine log a l client cfg w (data_of cfg) P (y client cfg))

  pub start_backend-Fine :
      (log : LogConfig) (a : ServerApiConfig) (w : Shared S)
      → Fine a (Breaks log a) (Skipped log a w) (start_backend io log a w)
  unfolding start_backend
  start_backend-Fine log a w =
      let (system', made) = mkdir_all io.os (api_dir io a) w.system in
      parsed (io.hostname a.api_host) refl _ (λ x. inr x) _
        (config_loaded-Fine log a (is_local io a system') (load_config io a system')
          (record w { system = system' }) made (Breaks log a) (λ e. (system', inl e))
          (λ client cfg e. (system', inr (client, cfg, e))))
    where
      parsed :
          (host : Option String)
          → io.hostname a.api_host ≡ host
          → (F : Type 0) → (F → Skipped log a w)
          → (next : Started io) → Fine a (Breaks log a) F next
          → Fine a
              (Breaks log a)
              (Skipped log a w)
              (elim host [ none ↦ some (w, none, []) | some _ ↦ next ])
      parsed none q F g next f = inl q
      parsed (some host) q F g next f = weaken a (Breaks log a) F (Skipped log a w) next g f
