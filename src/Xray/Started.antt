-- ===== src/Xray/Started.antt =====
-- The core after a start that returns no error.
use kknode.Base.{
  Option-cases, inl, inr, sym, ◌∙◌, String, ◌≡◌, refl, Bool, true, false, not, List, Option, none,
  some, if-elim, if◌then◌else◌,
}
use kknode.Base.Result.{Result, ok, err}
use kknode.Base.Text.Paths.{join_path}
use kknode.Panel.{ServerConfigResponse}
use kknode.Outbounds.Custom.{InterfaceAddr, DnsConfig, CoreRule, OutboundBuilder, Parsers}
use kknode.Certs.{System, Refusals, CertError, read_file}
use kknode.Xray.{
  close_core, not_closed, Engine, XrayCore, XrayError, server_started, server_created,
  config_decoded, file_read, panicked, start_core,
}

-- The core has a server and its features.
abbrev pub HasServer : {I : Type 0} → XrayCore I → Type 0
HasServer {I} v = (v.features ≡ true) × ((i : I) × (v.server ≡ some i))

abbrev Good : {I : Type 0} → XrayCore I × Result XrayError (Unit {0}) → Type 0
Good r = r.1 ≡ ok tt → HasServer r.0

module _ {D R : Type 0} (builder : OutboundBuilder) (parsers : Parsers)
    (build_dns : DnsConfig → Option D) (build_router : List CoreRule → Option R)
    (addrs : Option (List InterfaceAddr)) (engine : Engine D builder.Built R) (os : Refusals)
    (cfg : ServerConfigResponse) (local_only : Bool) where
  server_started-Good :
      (v : XrayCore engine.Instance) (i : engine.Instance)
      → Good
          (server_started builder parsers build_dns build_router addrs engine os v cfg local_only i)
  unfolding server_started
  server_started-Good v i =
      if-elim Good (not (engine.starts i)) _ _ (λ _ k. absurd (cc)) (λ _ k. (refl, (i, refl)))

  server_created-Good :
      (v : XrayCore engine.Instance) (o : Option engine.Instance)
      → Good
          (server_created builder parsers build_dns build_router addrs engine os v cfg local_only o)
  unfolding server_created
  server_created-Good v none = λ k. absurd (cc)
  server_created-Good v (some i) = server_started-Good v i

  config_decoded-Good :
      (v : XrayCore engine.Instance) (o : Option engine.Config)
      → Good
          (config_decoded builder parsers build_dns build_router addrs engine os v cfg local_only o)
  unfolding config_decoded
  config_decoded-Good v none = λ k. absurd (cc)
  config_decoded-Good v (some c) = server_created-Good v (engine.create c)

  file_read-Good :
      (v : XrayCore engine.Instance) (r : Result CertError String)
      → Good (file_read builder parsers build_dns build_router addrs engine os v cfg local_only r)
  unfolding file_read
  file_read-Good v (err e) = λ k. absurd (cc)
  file_read-Good v (ok text) = config_decoded-Good v (engine.decode_core text)

  -- A core whose start returns no error has a server.
  pub start_core-HasServer :
      (api_dir : String) (v : XrayCore engine.Instance) (s : System)
      → Good
          (start_core builder parsers build_dns build_router addrs engine os cfg api_dir local_only
            v s).1
  unfolding start_core
  start_core-HasServer api_dir v s = saved _ _
    where
      Q : System × (XrayCore engine.Instance × Result XrayError (Unit {0})) → Type 0
      Q r = Good r.1

      saved :
          (s' : System) (goes_on : Bool)
          → Q (
              if goes_on
              then (
                s',
                file_read builder parsers build_dns build_router addrs engine os v cfg local_only
                    (read_file os (join_path api_dir "core.json") s').1,
              )
              else (s', (v, err panicked)))
      saved s' true = file_read-Good v _
      saved s' false = λ k. absurd (cc)

module _ {D R : Type 0} (builder : OutboundBuilder) (parsers : Parsers)
    (build_dns : DnsConfig → Option D) (build_router : List CoreRule → Option R)
    (addrs : Option (List InterfaceAddr)) (engine : Engine D builder.Built R) (os : Refusals)
    (v : XrayCore engine.Instance) where
  close_core-some :
      (i : engine.Instance)
      → v.server ≡ some i
      → (close_core builder parsers build_dns build_router addrs engine os v).1
        ≡ (if engine.closes i then ok tt else err not_closed)
  unfolding close_core
  close_core-some i e = rw (e, close_core) refl

  -- The end of a core panics only where it has no server.
  pub close_core-panicked :
      (close_core builder parsers build_dns build_router addrs engine os v).1 ≡ err panicked
      → v.server ≡ none
  close_core-panicked h = elim (Option-cases v.server) [
    | inl e ↦ e
    | inr (i, e) ↦ absurd (no_panic (engine.closes i) (sym (close_core-some i e) ∙ h))
  ]
    where
      IsPanic : Result XrayError (Unit {0}) → Type 0
      IsPanic r = r ≡ err panicked

      no_panic : (b : Bool) → IsPanic (if b then ok tt else err not_closed) → ⊥
      no_panic true k = absurd (cc)
      no_panic false k = absurd (cc)
