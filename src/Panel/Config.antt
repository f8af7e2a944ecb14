-- ===== src/Panel/Config.antt =====
-- api/panel/server.go: the request for a server's configuration. The hash of a body and its
-- decoding are parameters.
use kknode.Base.{
  ℕ, String, ◌≡◌, ◌≢◌, Bool, false, Option, none, some, if◌then◌else◌, leb, ◌==◌ as eq_ℕ, arith,
  ◌<◌,
}
use kknode.Base.Eq.{string_eq, ◌==◌, beq_refl, beq_ne}
use kknode.Base.Result.{Result, ok, err}
use kknode.Panel.{ServerConfigResponse}

pub data ConfigError : Type 0 where
  request_failed bad_status bad_body no_data no_protocols : ConfigError

-- What a `ClientV2` remembers of the last answer.
pub record ConfigClient : Type 0 where
  pub server_config_etag : String
  pub response_body_hash : String

pub record ConfigReply : Type 0 where
  pub failed : Bool
  pub status : ℕ
  pub body : String
  pub etag : String

-- `GetServerConfig`; `ok none` is `nil, nil`. `no_data` is no error that is returned, but the panic
-- for a `nil` pointer, which ends the program: its callers go on only with the others.
unfoldable pub get_server_config :
    (String → String)
    → (String → Option ServerConfigResponse)
    → ConfigReply
    → ConfigClient
    → ConfigClient × Result ConfigError (Option ServerConfigResponse)
get_server_config sha256 unmarshal r c =
    let hash = sha256 r.body in
    let c' : ConfigClient = record { server_config_etag = r.etag; response_body_hash = hash } in
    if r.failed
    then (c, err request_failed)
    else if eq_ℕ r.status 304
    then (c, ok none)
    else if leb 400 r.status
    then (c, err bad_status)
    else if c.response_body_hash == hash
    then (c, ok none)
    else elim (unmarshal r.body) [
      | none ↦ (c', err bad_body)
      | some resp ↦ elim resp.config [
        | none ↦ (c', err no_data)
        | some d ↦ elim d.protocols [
          | none ↦ (c', err no_protocols)
          | some ps ↦ (c', ok (some resp))
        ]
      ]
    ]

-- An answer with a body: no error, and a status that is neither 304 nor 400 and more.
abbrev pub HasBody : ConfigReply → Type 0
HasBody r = (r.failed ≡ false) × (r.status ≢ 304) × (r.status < 400)

-- A body is looked at once: where the panel sends the same body again, `GetServerConfig` returns
-- no configuration and no error, whatever it returned for that body the first time, an error of
-- decoding included, and remembers the same.
pub get_server_config-again :
    (sha256 : String → String) (unmarshal : String → Option ServerConfigResponse) (r : ConfigReply)
    (c : ConfigClient)
    → HasBody r
    → c.response_body_hash ≢ sha256 r.body
    → let c' = (get_server_config sha256 unmarshal r c).0 in
      get_server_config sha256 unmarshal r c' ≡ (c', ok none)
unfolding get_server_config
get_server_config-again sha256 unmarshal r c h n =
    let s304 : eq_ℕ r.status 304 ≡ false = ground (arith, h.1) in
    let s400 : leb 400 r.status ≡ false = ground (arith, h.2) in
    let new = beq_ne c.response_body_hash (sha256 r.body) n in
    let same = beq_refl (sha256 r.body) in ground (arith, h.0, s304, s400, new, same)
