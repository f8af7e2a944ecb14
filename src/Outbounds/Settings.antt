-- ===== src/Outbounds/Settings.antt =====
-- core/custom.go: the protocol and the settings of an outbound. `json.Valid` is a parameter.
pub mod Supported
use Prim.Native.String
use Prim.Native.Char.{code}
use kknode.Base.{
  String, Bool, true, false, not, ◌&&◌, ◌||◌, List, [], ◌∷◌, ◌++◌, Option, none, some, map,
  if◌then◌else◌, ◌==◌ as eq_ℕ,
}
use kknode.Base.Int.{ℤ, pos, eqb_ℤ, ltb_ℤ}
use kknode.Base.Eq.{string_eq, ◌==◌}
use kknode.Base.Map.{Map}
use kknode.Base.Result.{Result, ok, err}
use kknode.Base.Text.{concat, trim_space, to_lower, itoa}
use kknode.Panel.{Outbound}

-- the object of a WireGuard peer
pub record Peer : Type 0 where
  pub public_key : String
  pub endpoint : String
  pub allowed_ips : List String
  pub pre_shared_key : Option String
  pub keep_alive : Option ℤ

-- The values that the settings are made of; an object is an association list.
pub data Value : Type 0 where
  text : String → Value
  number : ℤ → Value
  flag : Bool → Value
  texts : List String → Value
  peers : List Peer → Value

unfoldable pub normalize_outbound_protocol : String → String
normalize_outbound_protocol protocol =
    let p = to_lower (trim_space protocol) in
    if p == "direct" then "freedom" else if p == "reject" || p == "block" then "blackhole" else p

unfoldable pub first_non_empty : List String → String
first_non_empty [] = ""
first_non_empty (v ∷ vs) = if not (trim_space v == "") then trim_space v else first_non_empty vs

-- `strings.FieldsFunc` for commas and line ends, in reverse order of the text: a field that has
-- begun, and those behind it.
fields : String → String × List String
fields String.[] = ("", [])
fields (String.◌∷◌ c s) =
    let (field, rest) = fields s in
    if eq_ℕ (code c) b',' || eq_ℕ (code c) 10 || eq_ℕ (code c) 13
    then ("", if field == "" then rest else field ∷ rest)
    else (String.◌∷◌ c field, rest)

abbrev close_field : String × List String → List String
close_field (field, rest) = if field == "" then rest else field ∷ rest

pub keep_non_blank : List String → List String
keep_non_blank [] = []
keep_non_blank (f ∷ fs) =
    if not (trim_space f == "") then trim_space f ∷ keep_non_blank fs else keep_non_blank fs

unfoldable pub split_csv_lines : String → List String
unfolding fields keep_non_blank
split_csv_lines s = keep_non_blank (close_field (fields s))

-- What an outbound is configured with: text of the panel, or an object that the code marshals.
pub data Raw : Type 0 where
  given : String → Raw
  built : Map String Value → Raw

pub data OutboundError : Type 0 where
  invalid_json unsupported_security unsupported_transport : OutboundError

module _ (valid : String → Bool) where
  -- `ok none` is `nil, nil`
  unfoldable pub raw_json_message : String → Result OutboundError (Option String)
  raw_json_message value =
      let v = trim_space value in
      if v == "" then ok none else if not (valid v) then err invalid_json else ok (some v)

abbrev address_port : Outbound → Map String Value
address_port item = ("address", text (trim_space item.address)) ∷ ("port", number item.port) ∷ []

abbrev or_default : List String → List String → List String
or_default [] d = d
or_default (x ∷ xs) d = x ∷ xs

-- the case `wireguard`
unfoldable pub wireguard_settings : Outbound → Option (Map String Value)
wireguard_settings item =
    let secret_key = trim_space item.password in
    let peer_public_key = first_non_empty (item.reality_public_key ∷ item.uuid ∷ []) in
    let endpoint_host = trim_space item.address in
    let psk = trim_space item.user in
    let peer : Peer = record {
      public_key = peer_public_key;
      endpoint = concat (endpoint_host ∷ ":" ∷ itoa item.port ∷ []);
      allowed_ips = or_default (split_csv_lines item.path) ("0.0.0.0/0" ∷ "::/0" ∷ []);
      pre_shared_key = if not (psk == "") then some psk else none;
      keep_alive = if ltb_ℤ (pos 0) item.heartbeat then some item.heartbeat else none;
    } in
    if secret_key == "" || peer_public_key == "" || endpoint_host == "" || eqb_ℤ item.port (pos 0)
    then none
    else some (
        ("secretKey", text secret_key)
        ∷ ("address", texts (or_default (split_csv_lines item.host) ("10.0.0.2/32" ∷ [])))
        ∷ ("peers", peers (peer ∷ []))
        ∷ ("mtu", number (pos 1420))
        ∷ ("noKernelTun", flag (not item.reduce_rtt))
        ∷ [])

-- The `switch` of `buildOutboundSettings`; `none` where it returns nothing.
unfoldable pub protocol_settings : String → Outbound → Option (Map String Value)
unfolding wireguard_settings
protocol_settings protocol item =
    let user = trim_space item.user in
    let flow = trim_space item.flow in
    let congestion = trim_space item.congestion_controller in
    let id = first_non_empty (item.uuid ∷ item.password ∷ []) in
    if protocol == "freedom" || protocol == "blackhole"
    then some []
    else if protocol == "http" || protocol == "socks"
    then some (
        address_port item
        ++ (if not (user == "")
            then ("user", text user) ∷ ("pass", text item.password) ∷ []
            else []))
    else if protocol == "shadowsocks"
    then some (
        address_port item
        ++ ("method", text (first_non_empty (item.cipher ∷ "chacha20-ietf-poly1305" ∷ [])))
          ∷ ("password", text item.password)
          ∷ ("uot", flag (if item.uot then item.uot else true))
          ∷ (
            "uotVersion",
            number (if eqb_ℤ item.uot_version (pos 0) then pos 2 else item.uot_version),
          )
          ∷ [])
    else if protocol == "trojan" || protocol == "anytls"
    then some (address_port item ++ ("password", text item.password) ∷ [])
    else if protocol == "vmess"
    then some (
        address_port item
        ++ ("id", text id) ∷ ("security", text (first_non_empty (item.cipher ∷ "auto" ∷ []))) ∷ [])
    else if protocol == "vless"
    then some (
        address_port item
        ++ ("id", text id)
          ∷ ("encryption", text "none")
          ∷ (if not (flow == "") && not (flow == "none") then ("flow", text flow) ∷ [] else []))
    else if protocol == "tuic"
    then some (
        address_port item
        ++ ("uuid", text id)
          ∷ ("password", text item.password)
          ∷ (if not (congestion == "") then ("congestionControl", text congestion) ∷ [] else [])
        ++ ("udpStream", flag item.udp_stream)
          ∷ ("zeroRttHandshake", flag item.reduce_rtt)
          ∷ (if ltb_ℤ (pos 0) item.heartbeat
              then ("heartbeat", number item.heartbeat) ∷ []
              else []))
    else if protocol == "hysteria"
    then some (("version", number (pos 2)) ∷ address_port item)
    else if protocol == "wireguard"
    then wireguard_settings item
    else none

-- `buildOutboundSettings`: the protocol and the settings, `none` for an outbound to skip.
unfoldable pub build_outbound_settings :
    (String → Bool) → Outbound → Result OutboundError (Option (String × Raw))
unfolding protocol_settings
build_outbound_settings valid item =
    let protocol = normalize_outbound_protocol item.protocol in
    elim (raw_json_message valid item.settings) [
      | err e ↦ err e
      | ok r ↦ elim r [
        | some raw ↦ ok (some (protocol, given raw))
        | none ↦ elim (protocol_settings protocol item) [
          | none ↦ ok none
          | some settings ↦ ok (some (protocol, built settings))
        ]
      ]
    ]
