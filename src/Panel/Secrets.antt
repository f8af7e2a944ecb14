-- ===== src/Panel/Secrets.antt =====
-- api/panel/server.go: the DNS credentials of a configuration, which are taken out of it before it
-- is written to disk.
pub mod Restore
use kknode.Base.{
  ℕ, String, Bool, true, false, not, ◌&&◌, List, [], ◌∷◌, Option, none, some, map, if◌then◌else◌,
  leb, ◌==◌ as eq_ℕ,
}
use kknode.Base.Eq.{string_eq, ◌==◌}
use kknode.Base.Map.{Map, load, store}
use kknode.Base.Result.{Result, ok, err}
use kknode.Panel.{Protocol, Data, ServerConfigResponse}

-- the credentials, by the type of the protocol
pub collect_secrets : List Protocol → Map String String → Map String String
collect_secrets [] secrets = secrets
collect_secrets (p ∷ ps) secrets =
    collect_secrets ps
      (if p.cert_dns_env == "" then secrets else store p.node_type p.cert_dns_env secrets)

pub redact_protocol : Protocol → Protocol
redact_protocol p = record p { cert_dns_env = "" }

abbrev pub with_protocols : ServerConfigResponse → Data → List Protocol → ServerConfigResponse
with_protocols cfg d ps = record cfg { config = some (record d { protocols = some ps }) }

-- `none` is a configuration that is `nil`.
unfoldable pub redact_cert_dns_env :
    Option ServerConfigResponse → Option ServerConfigResponse × Map String String
unfolding collect_secrets redact_protocol
redact_cert_dns_env none = (none, [])
redact_cert_dns_env (some cfg) = elim cfg.config [
  | none ↦ (some cfg, [])
  | some d ↦ elim d.protocols [
    | none ↦ (some cfg, [])
    | some ps ↦ (some (with_protocols cfg d (map redact_protocol ps)), collect_secrets ps [])
  ]
]

pub merge_protocol : Map String String → Protocol → Protocol
merge_protocol secrets p =
    if p.cert_dns_env == ""
    then elim (load p.node_type secrets) [ none ↦ p | some v ↦ record p { cert_dns_env = v } ]
    else p

unfoldable pub merge_cert_dns_env :
    Option ServerConfigResponse → Map String String → Option ServerConfigResponse
unfolding merge_protocol
merge_cert_dns_env none secrets = none
merge_cert_dns_env (some cfg) secrets = elim cfg.config [
  | none ↦ some cfg
  | some d ↦ elim d.protocols [
    | none ↦ some cfg
    | some ps ↦ elim secrets [
      | [] ↦ some cfg
      | s ∷ ss ↦ some (with_protocols cfg d (map (merge_protocol (s ∷ ss)) ps))
    ]
  ]
]
