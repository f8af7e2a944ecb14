-- ===== src/Inbounds/Accepted.antt =====
-- Which nodes `buildInbound` makes an inbound for.
use kknode.Base.{
  String, ◌≡◌, refl, Bool, true, false, ◌&&◌, List, [], ◌∷◌, Option, none, some, is_some,
  if◌then◌else◌, arith, ◌∙◌,
}
use kknode.Base.Eq.{string_eq, ◌==◌}
use kknode.Base.Result.{Result, ok, err, ◌>>=◌}
use kknode.Panel.{NodeInfo, Protocol}
use kknode.Outbounds.Settings.Supported.{one_of}
use kknode.Inbounds.{complete, build_inbound}
use kknode.Inbounds.Data.{InboundError, InboundDetour}
use kknode.Inbounds.Protocols.{
  vless_decryption, stream_transport, trojan_transport, build_vless, build_vmess, build_trojan,
  build_shadowsocks, build_protocol,
}

abbrev pub is_ok : {A : Type 0} → Result InboundError A → Bool
is_ok (ok a) = true
is_ok (err e) = false

abbrev pub stream_networks : List String
stream_networks = "tcp" ∷ "ws" ∷ "websocket" ∷ "grpc" ∷ "httpupgrade" ∷ "splithttp" ∷ "xhttp" ∷ []

-- The nodes that have an inbound; the first argument tells whether there are random bytes.
abbrev pub accepts : Bool → String → Protocol → Bool
accepts has_random t p =
    if t == "vless"
    then one_of p.encryption ("" ∷ "none" ∷ "mlkem768x25519plus" ∷ [])
      && one_of p.transport stream_networks
    else if t == "vmess"
    then one_of p.transport stream_networks
    else if t == "trojan"
    then one_of p.transport ("tcp" ∷ "ws" ∷ "websocket" ∷ "grpc" ∷ [])
    else if t == "shadowsocks"
    then has_random
    else one_of t ("hysteria2" ∷ "hysteria" ∷ "tuic" ∷ "anytls" ∷ [])

chain_is_ok :
    {A B C : Type 0} (m : Result InboundError A) (k : Result InboundError B) (f : A → B → C)
    → is_ok (m >>= λ a. k >>= λ b. ok (f a b)) ≡ (is_ok m && is_ok k)
chain_is_ok (ok a) (ok b) f = refl
chain_is_ok (ok a) (err e) f = refl
chain_is_ok (err e) (ok b) f = refl
chain_is_ok (err e) (err e') f = refl

then_is_ok :
    {A B : Type 0} (m : Result InboundError A) (f : A → B) → is_ok (m >>= λ a. ok (f a)) ≡ is_ok m
then_is_ok (ok a) f = refl
then_is_ok (err e) f = refl

vless_decryption-is_ok :
    (p : Protocol)
    → is_ok (vless_decryption p) ≡ one_of p.encryption ("" ∷ "none" ∷ "mlkem768x25519plus" ∷ [])
unfolding vless_decryption
vless_decryption-is_ok p = ground arith

stream_transport-is_ok :
    (p : Protocol) → is_ok (stream_transport p) ≡ one_of p.transport stream_networks
unfolding stream_transport
stream_transport-is_ok p = ground arith

trojan_transport-is_ok :
    (p : Protocol)
    → is_ok (trojan_transport p) ≡ one_of p.transport ("tcp" ∷ "ws" ∷ "websocket" ∷ "grpc" ∷ [])
unfolding trojan_transport
trojan_transport-is_ok p = ground arith

build_vless-is_ok :
    (p : Protocol)
    → is_ok (build_vless p) ≡ (
        one_of p.encryption ("" ∷ "none" ∷ "mlkem768x25519plus" ∷ [])
        && one_of p.transport stream_networks)
unfolding build_vless
build_vless-is_ok p =
    chain_is_ok (vless_decryption p) (stream_transport p) _
    ∙ rw (vless_decryption-is_ok p, stream_transport-is_ok p) refl

build_vmess-is_ok : (p : Protocol) → is_ok (build_vmess p) ≡ one_of p.transport stream_networks
unfolding build_vmess
build_vmess-is_ok p = then_is_ok (stream_transport p) _ ∙ stream_transport-is_ok p

build_trojan-is_ok :
    (p : Protocol)
    → is_ok (build_trojan p) ≡ one_of p.transport ("tcp" ∷ "ws" ∷ "websocket" ∷ "grpc" ∷ [])
unfolding build_trojan
build_trojan-is_ok p = then_is_ok (trojan_transport p) _ ∙ trojan_transport-is_ok p

build_shadowsocks-is_ok :
    (random : Option String) (p : Protocol) → is_ok (build_shadowsocks random p).1 ≡ is_some random
unfolding build_shadowsocks
build_shadowsocks-is_ok none p = refl
build_shadowsocks-is_ok (some bytes) p = refl

build_protocol-is_ok :
    (random : Option String) (t : String) (p : Protocol)
    → is_ok (build_protocol random t p).1 ≡ accepts (is_some random) t p
unfolding build_protocol
build_protocol-is_ok random t p = ground (
  arith,
  build_vless-is_ok p,
  build_vmess-is_ok p,
  build_trojan-is_ok p,
  build_shadowsocks-is_ok random p,
)

-- What `Build` gives for a configuration.
abbrev pub built_of :
    {C : Type 0} → (InboundDetour → Option C) → InboundDetour → Result InboundError C
built_of build d = elim (build d) [ none ↦ err InboundError.build_failed | some c ↦ ok c ]

bind_assoc :
    {A B C : Type 0} (m : Result InboundError A) (f : A → B) (g : B → Result InboundError C)
    → (m >>= λ a. g (f a)) ≡ ((m >>= λ a. ok (f a)) >>= g)
bind_assoc (ok a) f g = refl
bind_assoc (err e) f g = refl

-- A node has a configuration to build exactly where its type is one of the eight, its encryption
-- (VLESS) and its transport (VLESS, VMess, Trojan) are among those listed, and `rand.Read` succeeds
-- (Shadowsocks). It is built, whatever `Build` is, where it can be, and nothing else is.
pub build_inbound-is_ok :
    {C : Type 0} (build : InboundDetour → Option C) (random : Option String) (n : NodeInfo)
    (tag api_dir : String)
    → (is_ok (build_inbound some random n tag api_dir).1
        ≡ accepts (is_some random) n.node_type n.protocol)
      × ((build_inbound build random n tag api_dir).1
          ≡ ((build_inbound some random n tag api_dir).1 >>= built_of build))
unfolding build_inbound
build_inbound-is_ok build random n tag api_dir =
    let (p, r) = build_protocol random n.node_type n.protocol in
    let n' : NodeInfo = record n { protocol = p } in
    (
      then_is_ok r (complete api_dir n' tag) ∙ build_protocol-is_ok random n.node_type n.protocol,
      bind_assoc r (complete api_dir n' tag) (built_of build),
    )
