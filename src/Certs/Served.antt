-- ===== src/Certs/Served.antt =====
-- The certificate that a node asks for is the one that its inbound serves.
use kknode.Base.{
  String, ◌≡◌, refl, Bool, true, false, not, ◌&&◌, ◌||◌, List, [], ◌∷◌, Option, none, some, inl,
  inr, ap, ◌∙◌, sym, subst, if-elim,
}
use kknode.Base.Eq.{string_eq, ◌==◌}
use kknode.Base.Result.{Result, ok, ok_first}
use kknode.Base.Text.{contains}
use kknode.Panel.{NodeInfo, Protocol}
use kknode.Inbounds.{secure, set_security, complete, build_inbound, cert_path}
use kknode.Inbounds.Data.{InboundDetour, InboundError, InboundStream, Built, tls}
use kknode.Inbounds.Protocols.{build_shadowsocks, build_protocol}
use kknode.Outbounds.Settings.Supported.{one_of}
use kknode.Certs.{System, Refusals, is_exist}
use kknode.Certs.Lego.{Resource, Acme}
use kknode.Certs.Request.{request_cert}
use kknode.Certs.Files.{making_mode, request_cert-BothExist}

-- The protocol after the builder has what the security is set by.
abbrev Keeps : Protocol → Protocol × Result InboundError Built → Type 0
Keeps p r = (r.0.security ≡ p.security) × (r.0.cert_mode ≡ p.cert_mode)

build_shadowsocks-Keeps :
    (random : Option String) (p : Protocol) → Keeps p (build_shadowsocks random p)
unfolding build_shadowsocks
build_shadowsocks-Keeps none p = (refl, refl)
build_shadowsocks-Keeps (some bytes) p =
    if-elim (λ (q : Protocol). (q.security ≡ p.security) × (q.cert_mode ≡ p.cert_mode))
      (not (p.server_key == "") && contains p.cipher "2022") _ p (λ _. (refl, refl))
      (λ _. (refl, refl))

build_protocol-Keeps :
    (random : Option String) (t : String) (p : Protocol) → Keeps p (build_protocol random t p)
unfolding build_protocol
build_protocol-Keeps random t p =
    let P = Keeps p in
    if-elim P (t == "vless") _ _ same λ _. if-elim P (t == "vmess") _ _ same λ _.
      if-elim P (t == "trojan") _ _ same λ _.
        if-elim P (t == "shadowsocks") _ _ (λ _. build_shadowsocks-Keeps random p)
          λ _.
            if-elim P (t == "hysteria2" || t == "hysteria") _ _ same
              λ _. if-elim P (t == "tuic") _ _ same λ _. if-elim P (t == "anytls") _ _ same same
  where
    same : {b c : Bool} → b ≡ c → (p.security ≡ p.security) × (p.cert_mode ≡ p.cert_mode)
    same _ = (refl, refl)

-- With TLS and a certificate, the stream serves the two files of the node.
Serves : String → String → Option InboundStream → Type 0
Serves c k o =
    (s : InboundStream) × (alpn : List String) × (o ≡ some s) × (s.security ≡ tls alpn c k)

secure-Serves :
    (alpn : List String) (c k : String) (o : Option InboundStream)
    → Serves c k (secure (tls alpn c k) o)
unfolding Serves
secure-Serves alpn c k none = (_, alpn, refl, refl)
secure-Serves alpn c k (some s) = (_, alpn, refl, refl)

not_none :
    (mode : String)
    → one_of mode ("dns" ∷ "http" ∷ "self" ∷ []) ≡ true
    → (mode == "none" || mode == "") ≡ false
not_none mode m = elim (making_mode mode m) [
  | inl e ↦ subst Q (sym e) refl
  | inr (inl e) ↦ subst Q (sym e) refl
  | inr (inr e) ↦ subst Q (sym e) refl
]
  where
    Q : String → Type 0
    Q mode = (mode == "none" || mode == "") ≡ false

set_security-Serves :
    (api_dir : String) (n : NodeInfo) (stream : Option InboundStream)
    → n.protocol.security ≡ "tls"
    → one_of n.protocol.cert_mode ("dns" ∷ "http" ∷ "self" ∷ []) ≡ true
    → Serves
        (cert_path ".cer" api_dir n)
        (cert_path ".key" api_dir n)
        (set_security api_dir n stream)
unfolding set_security
set_security-Serves api_dir n stream t m =
    let P = Serves (cert_path ".cer" api_dir n) (cert_path ".key" api_dir n) in
    let is_tls : (n.protocol.security == "tls") ≡ true =
      (string_eq.beq_iff n.protocol.security "tls").1 t in
    if-elim P (n.protocol.security == "tls") _ _
      (λ _.
        if-elim P (n.protocol.cert_mode == "none" || n.protocol.cert_mode == "") _ _
          (λ e. let no = not_none n.protocol.cert_mode m in absurd (cc))
          (λ _. secure-Serves _ _ _ stream))
      (λ e. absurd (cc))

-- Where `requestCert` succeeds for a node with TLS and a mode that makes a certificate (dns, http or
-- self), the configuration of its inbound, if it has one, serves a certificate and a key from two
-- files, and both are there when `requestCert` has returned.
pub request_cert-build_inbound :
    (io : Acme) (os : Refusals) (self_signed : String → Option Resource) (random : Option String)
    (n : NodeInfo) (tag api_dir : String) (s : System) {d : InboundDetour}
    → n.protocol.security ≡ "tls"
    → one_of n.protocol.cert_mode ("dns" ∷ "http" ∷ "self" ∷ []) ≡ true
    → (request_cert io os self_signed n api_dir s).1 ≡ ok tt
    → (build_inbound some random n tag api_dir).1 ≡ ok d
    → let s' = (request_cert io os self_signed n api_dir s).0 in
      (stream : InboundStream) × (alpn : List String) × (cert : String) × (key : String) × (d.stream
        ≡ some stream)
      × (stream.security ≡ tls alpn cert key)
      × (is_exist os cert s' ≡ true)
      × (is_exist os key s' ≡ true)
unfolding build_inbound complete Serves cert_path
request_cert-build_inbound io os self_signed random n tag api_dir s {d} t m r h =
    let files = request_cert-BothExist os io self_signed n api_dir s m r in
    let kept = build_protocol-Keeps random n.node_type n.protocol in
    let p = (build_protocol random n.node_type n.protocol).0 in
    let n' : NodeInfo = record n { protocol = p } in
    let (b, _, made) = ok_first (build_protocol random n.node_type n.protocol).1 _ h in
    let served = set_security-Serves api_dir n' b.stream (kept.0 ∙ t) (
      subst (λ (mode : String). one_of mode ("dns" ∷ "http" ∷ "self" ∷ []) ≡ true) (sym kept.1)
        m) in
    let is_d : complete api_dir n' tag b ≡ d = cc in
    (
      served.0,
      served.1,
      cert_path ".cer" api_dir n,
      cert_path ".key" api_dir n,
      sym (ap (λ (x : InboundDetour). x.stream) is_d) ∙ served.2,
      served.3,
      files.0,
      files.1,
    )
