-- ===== src/Outbounds/Stream.antt =====
-- core/custom.go: the transport and the security of an outbound. The decoding of the settings that
-- the panel gives as JSON is a parameter.
pub mod Accepted
use kknode.Base.{
  String, Bool, true, false, not, ◌||◌, List, [], ◌∷◌, Option, none, some, if◌then◌else◌,
}
use kknode.Base.Eq.{string_eq, ◌==◌}
use kknode.Base.Result.{Result, ok, err, ◌>>=◌}
use kknode.Base.Text.{trim_space, to_lower}
use kknode.Panel.{Outbound}
use kknode.Outbounds.Settings.{
  OutboundError, invalid_json, unsupported_security, unsupported_transport,
  normalize_outbound_protocol, first_non_empty,
}

pub record TlsConfig : Type 0 where
  pub server_name : String
  pub allow_insecure : Bool
  pub fingerprint : String

pub record RealityConfig : Type 0 where
  pub server_name : String
  pub public_key : String
  pub short_id : String
  pub fingerprint : String
  pub spider_x : String

pub data SecuritySettings : Type 0 where
  no_security : SecuritySettings
  tls_settings : TlsConfig → SecuritySettings
  reality_settings : RealityConfig → SecuritySettings

pub data TransportSettings : Type 0 where
  no_transport tcp_settings : TransportSettings
  -- host and path
  ws_settings http_upgrade_settings split_http_settings : String → String → TransportSettings
  -- authority and service name
  grpc_settings : String → String → TransportSettings

pub record StreamConfig : Type 0 where
  pub security : String
  pub network : Option String
  pub security_settings : SecuritySettings
  pub transport_settings : TransportSettings

-- The transport, and what it is for the protocol where none is given.
unfoldable pub transport_of : Outbound → String
transport_of item =
    let p = normalize_outbound_protocol item.protocol in
    let t = to_lower (trim_space item.transport) in
    if t == ""
    then if p == "vmess" || p == "vless" || p == "trojan" || p == "anytls"
      then "tcp"
      else if p == "tuic"
      then "tuic"
      else if p == "hysteria"
      then "hysteria"
      else ""
    else t

unfoldable pub has_stream_field : Outbound → Bool
has_stream_field item =
    not (transport_of item == "")
    || not (to_lower (trim_space item.security) == "")
    || not (trim_space item.sni == "")
    || not (trim_space item.fingerprint == "")
    || not (trim_space item.host == "")
    || not (trim_space item.path == "")
    || not (trim_space item.service_name == "")
    || not (trim_space item.reality_public_key == "")
    || not (trim_space item.reality_short_id == "")

-- the `switch` on the security
pub security_settings_of : String → Outbound → Result OutboundError SecuritySettings
security_settings_of security item =
    if security == "" || security == "none"
    then ok no_security
    else if security == "tls"
    then ok (
        tls_settings (record {
          server_name = trim_space item.sni;
          allow_insecure = item.allow_insecure;
          fingerprint = first_non_empty (item.fingerprint ∷ "chrome" ∷ []);
        }))
    else if security == "reality"
    then ok (
        reality_settings (record {
          server_name = trim_space item.sni;
          public_key = trim_space item.reality_public_key;
          short_id = trim_space item.reality_short_id;
          fingerprint = first_non_empty (item.fingerprint ∷ "chrome" ∷ []);
          spider_x = first_non_empty (item.spider_x ∷ "/" ∷ []);
        }))
    else err unsupported_security

-- the `switch` on the transport
pub transport_settings_of : String → Outbound → Result OutboundError TransportSettings
transport_settings_of transport item =
    let host = trim_space item.host in
    let path = trim_space item.path in
    if transport == ""
    then ok no_transport
    else if transport == "tcp" || transport == "raw"
    then ok tcp_settings
    else if transport == "ws" || transport == "websocket"
    then ok (ws_settings host path)
    else if transport == "grpc"
    then ok (grpc_settings host (trim_space item.service_name))
    else if transport == "httpupgrade"
    then ok (http_upgrade_settings host path)
    else if transport == "splithttp" || transport == "xhttp"
    then ok (split_http_settings host path)
    else if transport == "tuic" || transport == "hysteria"
    then ok no_transport
    else err unsupported_transport

-- `ok none` is `nil, nil`
unfoldable pub build_outbound_stream_config :
    (String → Option StreamConfig) → Outbound → Result OutboundError (Option StreamConfig)
unfolding security_settings_of transport_settings_of
build_outbound_stream_config unmarshal item =
    let raw = trim_space item.stream_settings in
    let security = to_lower (trim_space item.security) in
    let transport = transport_of item in
    if normalize_outbound_protocol item.protocol == "wireguard"
    then ok none
    else if not (raw == "")
    then elim (unmarshal raw) [ none ↦ err invalid_json | some s ↦ ok (some s) ]
    else if not (has_stream_field item)
    then ok none
    else (security_settings_of security item >>= λ s. transport_settings_of transport item >>= λ t.
        ok (
          some (record {
            security = security;
            network = if not (transport == "") then some transport else none;
            security_settings = s;
            transport_settings = t;
          })))
