-- ===== src/Inbounds/Protocols.antt =====
-- core/inbound.go: the builders of the protocols. The 32 bytes that `rand.Read` gives are an argument,
-- `none` where it fails.
use kknode.Base.{String, not, ◌&&◌, ◌||◌, [], ◌∷◌, ◌++◌, Option, none, some, if◌then◌else◌}
use kknode.Base.Int.{ℤ, pos, ltb_ℤ}
use kknode.Base.Eq.{string_eq, ◌==◌}
use kknode.Base.Result.{Result, ok, err, ◌>>=◌}
use kknode.Base.Text.{concat, join, itoa, split, contains}
use kknode.Base.Text.Base64.{encode}
use kknode.Base.Text.Paths.{hex_of}
use kknode.Panel.{Protocol}
use kknode.Inbounds.Data.{
  InboundError, unsupported_type, bad_encryption, bad_network, no_random, InboundTransport, bare,
  tcp, ws, http_upgrade, grpc, split_http, hysteria_mask, no_security, vless, vmess, trojan,
  shadowsocks, hysteria, tuic, anytls, Built, with_stream,
}

-- the decryption of `buildVLess`
unfoldable pub vless_decryption : Protocol → Result InboundError String
vless_decryption p =
    if not (p.encryption == "") && not (p.encryption == "none")
    then if p.encryption == "mlkem768x25519plus"
      then ok (
          join "." (
            ("mlkem768x25519plus"
              ∷ p.encryption_mode
              ∷ concat (p.encryption_ticket ∷ "s" ∷ [])
              ∷ (if not (p.encryption_server_padding == "")
                  then p.encryption_server_padding ∷ []
                  else []))
            ++ p.encryption_private_key ∷ []))
      else err bad_encryption
    else ok "none"

-- the `switch` on the transport in `buildVLess` and in `buildVMess`
unfoldable pub stream_transport : Protocol → Result InboundError InboundTransport
stream_transport p =
    let t = p.transport in
    if t == "tcp"
    then ok (tcp none)
    else if t == "ws" || t == "websocket"
    then ok (ws p.host p.path)
    else if t == "grpc"
    then ok (grpc p.service_name)
    else if t == "httpupgrade"
    then ok (http_upgrade p.host p.path)
    else if t == "splithttp" || t == "xhttp"
    then ok (split_http p.host p.path p.xhttp_mode)
    else err bad_network

unfoldable pub build_vless : Protocol → Result InboundError Built
unfolding vless_decryption stream_transport
build_vless p = vless_decryption p >>= λ decryption. stream_transport p >>= λ transport.
    ok (with_stream "vless" (vless decryption) p.transport transport)

unfoldable pub build_vmess : Protocol → Result InboundError Built
unfolding stream_transport
build_vmess p =
    stream_transport p >>= λ transport. ok (with_stream "vmess" vmess p.transport transport)

-- the `switch` of `buildTrojan`
unfoldable pub trojan_transport : Protocol → Result InboundError InboundTransport
trojan_transport p =
    let network = p.transport in
    if network == "tcp"
    then ok (tcp none)
    else if network == "ws" || network == "websocket"
    then ok (ws p.host p.path)
    else if network == "grpc"
    then ok (grpc p.service_name)
    else err bad_network

unfoldable pub build_trojan : Protocol → Result InboundError Built
unfolding trojan_transport
build_trojan p =
    trojan_transport p >>= λ transport. ok (with_stream "trojan" trojan p.transport transport)

-- A server key of a 2022 cipher is replaced by its encoding in the protocol itself, which is what
-- the first result holds.
unfoldable pub build_shadowsocks : Option String → Protocol → Protocol × Result InboundError Built
build_shadowsocks random p = elim random [
  | none ↦ (p, err no_random)
  | some bytes ↦
      let is_2022 = not (p.server_key == "") && contains p.cipher "2022" in
      let p' : Protocol = if is_2022 then record p { server_key = encode p.server_key } else p in
      let user : String × String =
        if is_2022 then ("", encode (hex_of bytes)) else (p.cipher, hex_of bytes) in
      let is_http = not (p.obfs == "") && p.obfs == "http" in
      let path = if p.obfs_path == "" then "/" else p.obfs_path in
      let host : Option String = if not (p.obfs_host == "") then some p.obfs_host else none in
      (
        p',
        ok (record {
          protocol = "shadowsocks";
          settings = shadowsocks (record {
            cipher = p.cipher;
            password = if is_2022 then p'.server_key else "";
            users = user ∷ [];
            network_list =
                if is_http && (not (p.obfs_path == "") || not (p.obfs_host == ""))
                then "tcp" ∷ []
                else "tcp" ∷ "udp" ∷ [];
          });
          stream =
              if is_http
              then some (record {
                network = some "tcp";
                transport = tcp (some (record { path = path; host = host }));
                security = no_security;
              })
              else none;
        }),
      )
]

-- `buildHysteria2`, which cannot fail
unfoldable pub build_hysteria2 : Protocol → Built
build_hysteria2 p =
    let mbps = λ (n : ℤ). concat (itoa n ∷ "mbps" ∷ []) in
    let is_none = not (p.obfs == "") && p.obfs == "none" in
    let obfs = if is_none then "" else p.obfs in
    let obfs_password = if is_none then "" else p.obfs_password in
    with_stream "hysteria" (hysteria 2) "hysteria" (
      hysteria_mask
        (if ltb_ℤ (pos 0) p.up_mbps || ltb_ℤ (pos 0) p.down_mbps
          then some (record {
            congestion = "force-brutal";
            brutal_up = mbps p.up_mbps;
            brutal_down = mbps p.down_mbps;
          })
          else none)
        (if not (obfs == "") && not (obfs_password == "")
          then some (record {
            mask_type = obfs;
            settings = concat ("{\"password\":\"" ∷ obfs_password ∷ "\"}" ∷ []);
          })
          else none))

unfoldable pub build_tuic : Protocol → Built
build_tuic p = with_stream "tuic" (tuic p.congestion_controller p.reduce_rtt) "tuic" bare

unfoldable pub build_anytls : Protocol → Built
build_anytls p =
    with_stream "anytls"
      (anytls (if not (p.padding_scheme == "") then split 10 p.padding_scheme else [])) "tcp" bare

-- The first `switch` of `buildInbound`, on the type of the node; the protocol is that of the node
-- after it.
unfoldable pub build_protocol :
    Option String → String → Protocol → Protocol × Result InboundError Built
build_protocol random t p =
    if t == "vless"
    then (p, build_vless p)
    else if t == "vmess"
    then (p, build_vmess p)
    else if t == "trojan"
    then (p, build_trojan p)
    else if t == "shadowsocks"
    then build_shadowsocks random p
    else if t == "hysteria2" || t == "hysteria"
    then (p, ok (build_hysteria2 p))
    else if t == "tuic"
    then (p, ok (build_tuic p))
    else if t == "anytls"
    then (p, ok (build_anytls p))
    else (p, err unsupported_type)
