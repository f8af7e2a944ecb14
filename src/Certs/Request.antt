-- ===== src/Certs/Request.antt =====
-- node/cert.go: the certificate that a node asks for before it starts, and its renewal. The making
-- of a self-signed certificate and its key is a parameter.
use kknode.Base.{String, ◌&&◌, ◌||◌, [], ◌∷◌, Option, none, some, if◌then◌else◌}
use kknode.Base.Eq.{string_eq, ◌==◌}
use kknode.Base.Map.{load, store}
use kknode.Base.Result.{ok, err}
use kknode.Base.Text.{concat}
use kknode.Panel.{NodeInfo}
use kknode.Inbounds.{cert_path}
use kknode.Certs.{
  system_error, unsupported_cert_mode, not_obtained, System, M, ◌>>=◌, ◌>>◌, call, Refusals,
  is_exist,
}
use kknode.Certs.Lego.{Resource, Acme, new_lego, create_cert, renew_cert}

unfoldable pub drop_as : String → String → String
drop_as String.[] old = old
drop_as (String.◌∷◌ c s) String.[] = ""
drop_as (String.◌∷◌ c s) (String.◌∷◌ d t) = drop_as s t

module _ (os : Refusals) where
  -- A file that is opened without `O_TRUNC`, and written from its start: what it held behind that
  -- stays.
  unfoldable pub overwrite_file : String → String → M (Unit {0})
  unfolding drop_as
  overwrite_file path text d =
      let old : String = elim (load path d.files) [ none ↦ "" | some t ↦ t ] in
      if os.refuses path
      then (d, err system_error)
      else (record d { files = store path (concat (text ∷ drop_as text old ∷ [])) d.files }, ok tt)

module _ (io : Acme) (os : Refusals) (self_signed : String → Option Resource) where
  -- `generateSelfSslCertificate`
  unfoldable pub generate_self_ssl_certificate : String → String → String → M (Unit {0})
  unfolding overwrite_file
  generate_self_ssl_certificate domain cert_path key_path = do
    made ← call (self_signed domain) not_obtained
    overwrite_file os cert_path made.certificate
    overwrite_file os key_path made.private_key

  -- `requestCert`
  unfoldable pub request_cert : NodeInfo → String → M (Unit {0})
  unfolding generate_self_ssl_certificate
  request_cert info api_dir d =
      let mode = info.protocol.cert_mode in
      let cert_file = cert_path ".cer" api_dir info in
      let key_file = cert_path ".key" api_dir info in
      let is_there = is_exist os cert_file d && is_exist os key_file d in
      if mode == "none" || mode == "" || mode == "file"
      then (d, ok tt)
      else if mode == "dns" || mode == "http"
      then if is_there
        then (d, ok tt)
        else (new_lego io os info api_dir >>= λ l. create_cert io os info api_dir l) d
      else if mode == "self"
      then if is_there
        then (d, ok tt)
        else generate_self_ssl_certificate info.protocol.sni cert_file key_file d
      else (d, err unsupported_cert_mode)

-- `renewCertTask`, which always returns `nil`
unfoldable pub renew_cert_task : Acme → Refusals → NodeInfo → String → System → System
renew_cert_task io os info api_dir d =
    ((new_lego io os info api_dir >>= λ l. renew_cert io os info api_dir l) d).0
