-- ===== src/Certs/Lego.antt =====
-- node/lego.go: the account, and the certificates that are obtained and renewed. The package lego,
-- the keys and JSON are a parameter.
use kknode.Base.{
  String, Bool, true, false, not, ◌||◌, is_some, List, [], ◌∷◌, Option, none, some, if◌then◌else◌,
}
use kknode.Base.Int.{ℤ, pos, ltb_ℤ}
use kknode.Base.Eq.{string_eq, ◌==◌}
use kknode.Base.Map.{Map, store}
use kknode.Base.Result.{ok}
use kknode.Base.Text.{cut, split}
use kknode.Base.Text.Paths.{join_path, dir_of}
use kknode.Panel.{NodeInfo}
use kknode.Inbounds.{cert_path}
use kknode.Certs.{
  system_error, no_key, no_client, not_registered, bad_user, no_provider, not_obtained,
  no_pem_block, M, ◌>>=◌, ◌>>◌, return, call, Refusals, is_exist, write_file, read_file, check_path,
}

-- `User`; an interface that is nil is `none`
pub record LegoUser (K R : Type 0) : Type 0 where
  pub email : String
  pub registration : Option R
  pub key : Option K
  pub key_encoded : String

-- `certificate.Resource`
pub record Resource : Type 0 where
  pub certificate : String
  pub private_key : String

-- `none` is an error of a call.
pub record Acme : Type 1 where
  pub Key : Type 0
  pub Registration : Type 0
  pub Provider : Type 0
  pub Client : Type 0
  pub generate_key : Option Key
  -- `EncodePrivate`, whose error is dropped: the empty text
  pub encode_private : Key → String
  pub pem_decode : String → Option String
  pub parse_key : String → Option Key
  pub encode_user : LegoUser Key Registration → Option String
  pub decode_user : String → Option (LegoUser Key Registration)
  pub new_client : LegoUser Key Registration → Option Client
  pub register : Client → Option Registration
  pub set_http01 : Client → Option Client
  pub dns_provider : String → Map String String → Option Provider
  pub set_dns01 : Provider → Client → Option Client
  pub obtain : List String → Client → Option Resource
  pub renew : String → String → Client → Option Resource
  -- the days that a certificate has left, as an `int`
  pub days_left : String → Option ℤ

-- the lines `NAME=value` of the credentials, as a map
pub dns_env : List String → Map String String → Map String String
dns_env [] m = m
dns_env (line ∷ lines) m = elim (cut b'=' line) [
  | none ↦ dns_env lines m
  | some (k, v) ↦ dns_env lines (store k v m)
]

-- `os.Setenv` of each of them: an empty name is refused, and so is a name or a value with a NUL.
pub set_env : Map String String → Map String String → Map String String
set_env [] env = env
set_env ((k, v) ∷ m) env =
    set_env m (if k == "" || is_some (cut 0 k) || is_some (cut 0 v) then env else store k v env)

abbrev pub account_email : String
account_email = "kknode@famiapp.cc"

module _ (io : Acme) (os : Refusals) where
  open io use {Key, Registration, Client}

  -- `Save`, which leaves the encoded key empty; the file is emptied before it is written
  pub save : String → LegoUser Key Registration → M (Unit {0})
  save path u = do
    check_path os path
    key ← call u.key no_key
    write_file os path ""
    text ← call (io.encode_user (record u { key_encoded = io.encode_private key })) system_error
    write_file os path text

  pub decode_private : String → M Key
  decode_private text = do
    bytes ← call (io.pem_decode text) no_pem_block
    call (io.parse_key bytes) bad_user

  -- `Load`, of a user that is new
  pub load_user : String → M (LegoUser Key Registration)
  unfolding decode_private
  load_user path = do
    text ← read_file os path
    u ← call (io.decode_user text) bad_user
    key ← decode_private u.key_encoded
    return (record u { key = some key })

  pub register_user : String → LegoUser Key Registration → M (LegoUser Key Registration)
  unfolding save
  register_user path user = do
    key ← call io.generate_key no_key
    let user' : LegoUser Key Registration = record user { key = some key }
    client ← call (io.new_client user') no_client
    reg ← call (io.register client) not_registered
    let user'' : LegoUser Key Registration = record user' { registration = some reg }
    save path user''
    return (record user'' { key_encoded = "" })

  pub new_lego_user : String → String → M (LegoUser Key Registration)
  unfolding load_user register_user
  new_lego_user path email d =
      let fresh : LegoUser Key Registration = record {
        email = email;
        registration = none;
        key = none;
        key_encoded = "";
      } in
      let loaded : M (LegoUser Key Registration) = load_user path >>= λ user.
      if not (user.email == email)
      then register_user path (record user { registration = none; email = email })
      else return user in
      if is_exist os path d then loaded d else register_user path fresh d

  -- `SetProvider`
  pub set_provider : NodeInfo → Client → M Client
  unfolding dns_env set_env
  set_provider info client d =
      let p = info.protocol in
      let env' = set_env (dns_env (split 10 p.cert_dns_env) []) d.env in
      if p.cert_mode == "http"
      then call (io.set_http01 client) no_provider d
      else if p.cert_mode == "dns"
      then (call (io.dns_provider p.cert_dns_provider env') no_provider >>= λ provider.
            call (io.set_dns01 provider client) no_provider)
          (record d { env = env' })
      else (d, ok client)

  -- `NewLego`
  unfoldable pub new_lego : NodeInfo → String → M Client
  unfolding new_lego_user set_provider
  new_lego info api_dir = do
    let cert_file = cert_path ".cer" api_dir info
    user ←
        new_lego_user (join_path (dir_of cert_file) "user/user-kknode@famiapp.cc.json")
          account_email
    client ← call (io.new_client user) no_client
    set_provider info client

  -- `writeCert`
  unfoldable pub write_cert : NodeInfo → String → Resource → M (Unit {0})
  write_cert info api_dir certificates = do
    let cert_file = cert_path ".cer" api_dir info
    let key_file = cert_path ".key" api_dir info
    check_path os cert_file
    write_file os cert_file certificates.certificate
    check_path os key_file
    write_file os key_file certificates.private_key

  -- `CreateCert`
  unfoldable pub create_cert : NodeInfo → String → Client → M (Unit {0})
  unfolding write_cert
  create_cert info api_dir client = do
    certificates ← call (io.obtain (info.protocol.sni ∷ []) client) not_obtained
    write_cert info api_dir certificates

  -- `CheckCert`: 30 days are left at most.
  pub check_cert : String → Bool × Bool
  check_cert text = elim (io.days_left text) [
    | none ↦ (false, true)
    | some days ↦ (not (ltb_ℤ (pos 30) days), false)
  ]

  -- `RenewCert`; a certificate that does not parse is one that need not be renewed
  unfoldable pub renew_cert : NodeInfo → String → Client → M (Unit {0})
  unfolding check_cert write_cert
  renew_cert info api_dir client = read_file os (cert_path ".cer" api_dir info) >>= λ text.
      if not (check_cert text).0
      then return tt
      else if (check_cert text).1
      then call none system_error
      else (call (io.renew info.protocol.sni text client) not_obtained >>= λ res.
          write_cert info api_dir res)
