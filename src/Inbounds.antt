-- ===== src/Inbounds.antt =====
-- core/inbound.go, core/node.go: the inbound of a node. `Build` of the package conf is a parameter.
pub mod Data
pub mod Protocols
pub mod Accepted
use kknode.Base.{
  ℕ, ◌-◌, ◌%◌, ◌^◌, String, Bool, true, false, not, ◌&&◌, ◌||◌, List, [], ◌∷◌, ◌++◌, Option, none,
  some, if◌then◌else◌,
}
use kknode.Base.Int.{ℤ, pos, negsuc, ltb_ℤ}
use kknode.Base.Eq.{string_eq, ◌==◌}
use kknode.Base.Result.{Result, ok, err, ◌>>=◌}
use kknode.Base.Text.{concat, join, itoa, split, contains}
use kknode.Base.Text.Base64.{encode}
use kknode.Base.Text.Paths.{join_path, hex_of}
use kknode.Panel.{NodeInfo, Protocol}
use kknode.Inbounds.Data.{
  InboundError, unsupported_type, bad_encryption, bad_network, no_random, build_failed, HttpHeader,
  QuicParams, Mask, InboundTransport, bare, tcp, ws, http_upgrade, grpc, split_http, hysteria_mask,
  Security, no_security, tls, reality, InboundStream, ShadowsocksSettings, InboundSettings, vless,
  vmess, trojan, shadowsocks, hysteria, tuic, anytls, InboundDetour, Built, with_stream,
}
use kknode.Inbounds.Protocols.{build_protocol}

-- a file of the node's certificate, by its suffix
unfoldable pub cert_path : String → String → NodeInfo → String
cert_path suffix api_dir n = join_path api_dir (concat (n.node_type ∷ itoa n.id ∷ suffix ∷ []))

-- The stream with a security; a new one where there is none.
abbrev pub secure : Security → Option InboundStream → Option InboundStream
secure s none = some (record { network = none; transport = bare; security = s })
secure s (some stream) = some (record stream { security = s })

-- the second `switch`, on the security
unfoldable pub set_security : String → NodeInfo → Option InboundStream → Option InboundStream
set_security api_dir n stream =
    let p = n.protocol in
    let add = if p.reality_server_addr == "" then p.sni else p.reality_server_addr in
    let is_hysteria = n.node_type == "hysteria2" || n.node_type == "hysteria" in
    if p.security == "tls"
    then if p.cert_mode == "none" || p.cert_mode == ""
      then stream
      else secure
          (tls (if is_hysteria then "h3" ∷ [] else []) (cert_path ".cer" api_dir n)
            (cert_path ".key" api_dir n))
          stream
    else if p.security == "reality"
    then secure
        (reality (concat (add ∷ ":" ∷ itoa p.reality_server_port ∷ [])) (p.sni ∷ [])
          p.reality_private_key (p.reality_short_id ∷ []))
        stream
    else stream

-- the conversion of an `int` to `uint32`
unfoldable pub uint32 : ℤ → ℕ
uint32 (pos n) = n % 2 ^ 32
uint32 (negsuc n) = 2 ^ 32 - 1 - n % 2 ^ 32

-- what `buildInbound` sets after the builder of the protocol
unfoldable pub complete : String → NodeInfo → String → Built → InboundDetour
unfolding set_security uint32
complete api_dir n tag b = record {
  protocol = b.protocol;
  settings = b.settings;
  port_from = uint32 n.protocol.port;
  port_to = uint32 n.protocol.port;
  listen_on = "0.0.0.0";
  sniffing = true;
  dest_override = "http" ∷ "tls" ∷ "quic" ∷ [];
  stream = set_security api_dir n b.stream;
  tag = tag;
}

module _ {C : Type 0} (build : InboundDetour → Option C) where
  -- `buildInbound`: the node, whose protocol it can change, and the configuration.
  unfoldable pub build_inbound :
      Option String → NodeInfo → String → String → NodeInfo × Result InboundError C
  unfolding build_protocol complete
  build_inbound random n tag api_dir =
      let (p, r) = build_protocol random n.node_type n.protocol in
      let n' : NodeInfo = record n { protocol = p } in
      (
        n',
        r >>= λ b. elim (build (complete api_dir n' tag b)) [
          | none ↦ err build_failed
          | some c ↦ ok c
        ],
      )

pub data NodeError : Type 0 where
  build_inbound_failed : InboundError → NodeError
  create_failed not_a_handler add_failed remove_failed : NodeError

-- xray-core's objects and inbound handlers. `none` is an error of a call.
pub record HandlerManager (C Handlers : Type 0) : Type 1 where
  pub Object : Type 0
  pub Handler : Type 0
  pub create_object : C → Option Object
  -- the type assertion to `inbound.Handler`
  pub as_handler : Object → Option Handler
  pub add_handler : Handler → Handlers → Option Handlers
  pub remove_handler : String → Handlers → Option Handlers

module _ {C Handlers : Type 0} (io : HandlerManager C Handlers) where
  open io use {create_object, as_handler, add_handler, remove_handler}

  pub add_inbound : C → Handlers → Result NodeError Handlers
  add_inbound config hs = elim (create_object config) [
    | none ↦ err create_failed
    | some raw ↦ elim (as_handler raw) [
      | none ↦ err not_a_handler
      | some handler ↦ elim (add_handler handler hs) [ none ↦ err add_failed | some hs' ↦ ok hs' ]
    ]
  ]

  pub remove_inbound : String → Handlers → Result NodeError Handlers
  remove_inbound tag hs = elim (remove_handler tag hs) [
    | none ↦ err remove_failed
    | some hs' ↦ ok hs'
  ]

  -- `AddNode`
  unfoldable pub add_node :
      (InboundDetour → Option C)
      → Option String
      → String
      → NodeInfo
      → String
      → Handlers
      → NodeInfo × Result NodeError Handlers
  unfolding add_inbound
  add_node build random tag info api_dir hs =
      let (info', r) = build_inbound build random info tag api_dir in
      (info', elim r [ err e ↦ err (build_inbound_failed e) | ok config ↦ add_inbound config hs ])

  -- `DelNode`
  unfoldable pub del_node : String → Handlers → Result NodeError Handlers
  unfolding remove_inbound
  del_node tag hs = remove_inbound tag hs
