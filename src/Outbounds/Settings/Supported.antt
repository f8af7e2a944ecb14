-- ===== src/Outbounds/Settings/Supported.antt =====
-- Which outbounds `buildOutboundSettings` configures, and where they lead.
use kknode.Base.{
  String, ◌≡◌, refl, ap, ◌∙◌, Bool, true, false, not, ◌&&◌, ◌||◌, List, [], ◌∷◌, Option, none, some,
  is_some, if◌then◌else◌, arith, inl, inr, Bool-cases,
}
use kknode.Base.Int.{pos, eqb_ℤ}
use kknode.Base.Eq.{string_eq, ◌==◌}
use kknode.Base.Map.{Map}
use kknode.Base.Result.{Result, ok}
use kknode.Base.Text.{trim_space}
use kknode.Panel.{Outbound}
use kknode.Outbounds.Settings.{
  OutboundError, Value, Raw, built, normalize_outbound_protocol, first_non_empty, raw_json_message,
  wireguard_settings, protocol_settings, build_outbound_settings,
}

abbrev pub one_of : String → List String → Bool
one_of s [] = false
one_of s (t ∷ ts) = s == t || one_of s ts

-- The protocols whose settings name the server.
abbrev pub to_server : List String
to_server =
    "http" ∷ "socks" ∷ "shadowsocks" ∷ "trojan" ∷ "vmess" ∷ "vless" ∷ "anytls" ∷ "tuic" ∷ "hysteria"
    ∷ []

-- What a WireGuard outbound needs.
abbrev pub is_complete : Outbound → Bool
is_complete item =
    not (trim_space item.password == "")
    && not (first_non_empty (item.reality_public_key ∷ item.uuid ∷ []) == "")
    && not (trim_space item.address == "")
    && not (eqb_ℤ item.port (pos 0))

wireguard_settings-is_some :
    (item : Outbound) → is_some (wireguard_settings item) ≡ is_complete item
unfolding wireguard_settings
wireguard_settings-is_some item = ground arith

step :
    (b : Bool) (m : Map String Value) (r : Option (Map String Value))
    → is_some (if b then some m else r) ≡ (b || is_some r)
step true m r = refl
step false m r = refl

last_step :
    (b c : Bool) (r : Option (Map String Value))
    → is_some r ≡ c
    → is_some (if b then r else none) ≡ (b && c)
last_step true c r e = e
last_step false c r e = refl

or_eq : (b : Bool) {c d : Bool} → c ≡ d → (b || c) ≡ (b || d)
or_eq b e = ap (λ x. b || x) e

arrange :
    (f k h o s t a m l u y w : Bool)
    → ((f || k) || ((h || o) || (s || ((t || a) || (m || (l || (u || (y || w))))))))
      ≡ ((f || (k || (h || (o || (s || (t || (m || (l || (a || (u || (y || false))))))))))) || w)
arrange f k h o s t a m l u y w = ground arith

protocol_settings-is_some :
    (p : String) (item : Outbound)
    → is_some (protocol_settings p item)
      ≡ (one_of p ("freedom" ∷ "blackhole" ∷ to_server) || (p == "wireguard" && is_complete item))
unfolding protocol_settings
protocol_settings-is_some p item =
    (step (p == "freedom" || p == "blackhole") _ _
      ∙ or_eq (p == "freedom" || p == "blackhole") (
          step (p == "http" || p == "socks") _ _
          ∙ or_eq (p == "http" || p == "socks") (
              step (p == "shadowsocks") _ _
              ∙ or_eq (p == "shadowsocks") (
                  step (p == "trojan" || p == "anytls") _ _
                  ∙ or_eq (p == "trojan" || p == "anytls") (
                      step (p == "vmess") _ _
                      ∙ or_eq (p == "vmess") (
                          step (p == "vless") _ _
                          ∙ or_eq (p == "vless") (
                              step (p == "tuic") _ _
                              ∙ or_eq (p == "tuic") (
                                  step (p == "hysteria") _ _
                                  ∙ or_eq (p == "hysteria") (
                                      last_step (p == "wireguard") (is_complete item)
                                        (wireguard_settings item)
                                        (wireguard_settings-is_some item))))))))))
    ∙ arrange (p == "freedom") (p == "blackhole") (p == "http") (p == "socks") (p == "shadowsocks")
        (p == "trojan") (p == "anytls") (p == "vmess") (p == "vless") (p == "tuic")
        (p == "hysteria") (p == "wireguard" && is_complete item)

abbrev pub made : Result OutboundError (Option (String × Raw)) → Bool
made (ok (some r)) = true
made _ = false

-- An outbound is configured exactly where the panel gives valid settings, or gives none and its
-- protocol is a supported one, of which WireGuard needs its two keys, the server and the port.
pub build_outbound_settings-made :
    (valid : String → Bool) (item : Outbound)
    → made (build_outbound_settings valid item) ≡ (
        let p = normalize_outbound_protocol item.protocol in
        if trim_space item.settings == ""
        then one_of p ("freedom" ∷ "blackhole" ∷ to_server)
          || (p == "wireguard" && is_complete item)
        else valid (trim_space item.settings))
unfolding build_outbound_settings raw_json_message
build_outbound_settings-made valid item =
    let p = normalize_outbound_protocol item.protocol in
    elim (Bool-cases (trim_space item.settings == "")) [
      | inl e ↦
          rw (e, build_outbound_settings, raw_json_message)
            (made_of (protocol_settings p item) p ∙ protocol_settings-is_some p item)
      | inr e ↦ rw (e, build_outbound_settings, raw_json_message) (ground arith)
    ]
  where
    made_of :
        (o : Option (Map String Value)) (p : String)
        → made (elim o [ none ↦ ok none | some m ↦ ok (some (p, built m)) ]) ≡ is_some o
    made_of none p = refl
    made_of (some m) p = refl
