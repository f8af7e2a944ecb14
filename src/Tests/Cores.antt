-- ===== src/Tests/Cores.antt =====
-- Runs of core/xray.go.
use kknode.Base.{String, true, false, List, [], ◌∷◌, none, some, map, ◌≡◌, refl}
use kknode.Base.Eq.{string_eq}
use kknode.Base.Map.{load, store, delete}
use kknode.Base.Result.{Result, ok, err}
use kknode.Base.Text.{concat, has_prefix, join, split}
use kknode.Base.Text.Paths.{join_path}
use kknode.Panel.Secrets.{redact_cert_dns_env}
use kknode.Panel.Secrets.Restore.{protocols_of}
use kknode.Outbounds.Custom.{CoreRule, DnsConfig, get_custom_config}
use kknode.Certs.{System, write_file, read_file}
use kknode.Xray.{Engine, XrayCore, XrayError, panicked, new_core, start_core, close_core}
use kknode.Xray.Config.{get_core_config}
use kknode.Xray.Saved.{Saved, start_core-Saved}
use kknode.Tests.Settings.{config, client}
use kknode.Tests.Serving.{permissive, empty_system}
use kknode.Tests.Streams.{tagged, parsers}

program : Unit {0}
unfolding join_path redact_cert_dns_env get_custom_config start_core close_core new_core load
    get_core_config write_file read_file store delete has_prefix join split
program = tt

-- A core is known by its log files, and decoding does not fail.
abbrev pub engine : Engine DnsConfig String (List CoreRule)
engine = record {
  Config = String;
  Instance = String;
  encode_server = λ c. some (concat ("node " ∷ map (λ p. p.cert_dns_env) (protocols_of (some c))));
  encode_core = λ k. some k.error_log;
  decode_core = λ t. some t;
  create = λ t. some t;
  starts = λ t. true;
  closes = λ t. true;
}

abbrev stopped : XrayCore String
stopped = new_core (record { level = "info"; output = ""; access = "none" }) client "/etc/n"

abbrev with_sidecar : System
with_sidecar = record empty_system { files = ("/etc/n/cert_env.json", "TOKEN=1") ∷ [] }

abbrev after_start : System × (XrayCore String × Result XrayError (Unit {0}))
after_start =
    start_core tagged parsers (λ c. some c) (λ r. some r) none engine permissive config "/etc/n"
      false stopped with_sidecar

-- The credentials are in no file, and the core runs on what was saved until it is closed. It is
-- not started again from what the panel sent, as its own configuration is dropped.
started :
    (load "/etc/n/cert_env.json" after_start.0.files ≡ none)
    × (load "/etc/n/node.json" after_start.0.files ≡ some "node ")
    × (after_start.1.0.server ≡ some "/etc/n/error.log")
    × (after_start.1.1 ≡ ok tt)
    × ((close_core tagged parsers
          (λ c. some c)
          (λ r. some r)
          none
          engine
          permissive
          after_start.1.0).1
        ≡ ok tt)
    × ((close_core tagged parsers (λ c. some c) (λ r. some r) none engine permissive stopped).1
        ≡ err panicked)
unfolding program
started = (refl, refl, refl, refl, refl, refl)

start_core-Saved_example :
    Saved tagged parsers
      (λ c. some c)
      (λ r. some r)
      none
      engine
      permissive
      stopped
      config
      "/etc/n"
      after_start.0
      with_sidecar
    × ((start_core tagged parsers
          (λ c. some c)
          (λ r. some r)
          none
          engine
          permissive
          config
          "/etc/n"
          true
          stopped
          with_sidecar).0
        ≡ with_sidecar)
start_core-Saved_example =
    start_core-Saved tagged parsers (λ c. some c) (λ r. some r) none engine permissive stopped
      config "/etc/n" with_sidecar
