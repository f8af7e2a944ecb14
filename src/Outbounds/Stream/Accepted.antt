-- ===== src/Outbounds/Stream/Accepted.antt =====
-- Which transports and which securities an outbound can have.
use kknode.Base.{
  String, ◌≡◌, refl, ◌∙◌, Bool, true, false, ◌&&◌, ◌||◌, List, [], ◌∷◌, Option, none, some, is_some,
  if◌then◌else◌, arith, inl, inr, Bool-cases,
}
use kknode.Base.Eq.{string_eq, ◌==◌}
use kknode.Base.Result.{Result, ok, err, ◌>>=◌}
use kknode.Base.Text.{trim_space, to_lower}
use kknode.Panel.{Outbound}
use kknode.Outbounds.Settings.{OutboundError, normalize_outbound_protocol}
use kknode.Outbounds.Settings.Supported.{one_of}
use kknode.Outbounds.Stream.{
  StreamConfig, transport_of, has_stream_field, security_settings_of, transport_settings_of,
  build_outbound_stream_config,
}

abbrev pub is_ok : {A : Type 0} → Result OutboundError A → Bool
is_ok (ok a) = true
is_ok (err e) = false

security_settings_of-is_ok :
    (s : String) (item : Outbound)
    → is_ok (security_settings_of s item) ≡ one_of s ("" ∷ "none" ∷ "tls" ∷ "reality" ∷ [])
unfolding security_settings_of
security_settings_of-is_ok s item = ground arith

abbrev pub transports : List String
transports =
    "" ∷ "tcp" ∷ "raw" ∷ "ws" ∷ "websocket" ∷ "grpc" ∷ "httpupgrade" ∷ "splithttp" ∷ "xhttp"
    ∷ "tuic" ∷ "hysteria" ∷ []

transport_settings_of-is_ok :
    (t : String) (item : Outbound) → is_ok (transport_settings_of t item) ≡ one_of t transports
unfolding transport_settings_of
transport_settings_of-is_ok t item = ground arith

-- No field is set only where neither a transport nor a security is.
blank_fields :
    (item : Outbound)
    → has_stream_field item ≡ false
    → ((to_lower (trim_space item.security) == "") ≡ true) × ((transport_of item == "") ≡ true)
unfolding has_stream_field
blank_fields item h = (ground arith, ground arith)

chain_is_ok :
    {A B C : Type 0} (m : Result OutboundError A) (k : Result OutboundError B) (f : A → B → C)
    → is_ok (m >>= λ a. k >>= λ b. ok (f a b)) ≡ (is_ok m && is_ok k)
chain_is_ok (ok a) (ok b) f = refl
chain_is_ok (ok a) (err e) f = refl
chain_is_ok (err e) (ok b) f = refl
chain_is_ok (err e) (err e') f = refl

-- An outbound other than WireGuard, for which the stream settings are left alone, is refused exactly
-- where the panel gives settings that do not decode, or gives none and asks for a security or a
-- transport that is not one of those listed, blanks and case aside.
pub build_outbound_stream_config-is_ok :
    (unmarshal : String → Option StreamConfig) (item : Outbound)
    → is_ok (build_outbound_stream_config unmarshal item) ≡ (
        normalize_outbound_protocol item.protocol == "wireguard"
        || (if trim_space item.stream_settings == ""
            then one_of (to_lower (trim_space item.security)) ("" ∷ "none" ∷ "tls" ∷ "reality" ∷ [])
              && one_of (transport_of item) transports
            else is_some (unmarshal (trim_space item.stream_settings))))
unfolding build_outbound_stream_config
build_outbound_stream_config-is_ok unmarshal item =
    let security = to_lower (trim_space item.security) in
    let transport = transport_of item in
    let s = security_settings_of-is_ok security item in
    let t = transport_settings_of-is_ok transport item in
    elim (Bool-cases (normalize_outbound_protocol item.protocol == "wireguard")) [
      | inl w ↦ rw (w, build_outbound_stream_config) refl
      | inr w ↦ elim (Bool-cases (trim_space item.stream_settings == "")) [
        | inr r ↦
            rw (w, build_outbound_stream_config)
              (rw r (decoded (unmarshal (trim_space item.stream_settings))))
        | inl r ↦ elim (Bool-cases (has_stream_field item)) [
          | inl f ↦
              rw (w, build_outbound_stream_config)
                (rw (r, f)
                  (chain_is_ok (security_settings_of security item)
                      (transport_settings_of transport item) _
                    ∙ rw (s, t) refl))
          | inr f ↦
              let (a, b) = blank_fields item f in
              rw (w, build_outbound_stream_config) (rw (r, f) (rw (a, b) refl))
        ]
      ]
    ]
  where
    decoded :
        (o : Option StreamConfig)
        → is_ok (elim o [ none ↦ err OutboundError.invalid_json | some s ↦ ok (some s) ])
          ≡ is_some o
    decoded none = refl
    decoded (some s) = refl
