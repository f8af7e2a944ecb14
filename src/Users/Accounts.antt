-- ===== src/Users/Accounts.antt =====
-- The accounts that core/user.go builds for the users, one kind for each protocol.
pub mod Emails
use kknode.Base.{
  ℕ, String, Bool, true, false, not, ◌||◌, List, [], ◌∷◌, Option, none, some, map, if◌then◌else◌,
}
use kknode.Base.Eq.{string_eq, ◌==◌}
use kknode.Base.Result.{Result, ok, err, ◌>>=◌}
use kknode.Base.Text.{to_lower, contains}
use kknode.Base.Text.Base64.{encode, take}
use kknode.Limiter.{user_tag}
use kknode.Panel.{UserInfo, NodeInfo, Protocol}

pub data CipherType : Type 0 where
  aes_128_gcm aes_256_gcm chacha20_poly1305 plain_none unknown : CipherType

unfoldable pub get_cipher_from_string : String → CipherType
get_cipher_from_string c =
    let s = to_lower c in
    if s == "aes-128-gcm" || s == "aead_aes_128_gcm"
    then aes_128_gcm
    else if s == "aes-256-gcm" || s == "aead_aes_256_gcm"
    then aes_256_gcm
    else if s == "chacha20-poly1305"
        || s == "aead_chacha20_poly1305"
        || s == "chacha20-ietf-poly1305"
    then chacha20_poly1305
    else if s == "none" || s == "plain"
    then plain_none
    else unknown

-- what `serial.ToTypedMessage` is given
pub data Account : Type 0 where
  vmess : String → String → Account
  vless : String → String → Account
  trojan : String → Account
  shadowsocks : String → CipherType → Account
  shadowsocks_2022 : String → Account
  hysteria : String → Account
  tuic : String → String → Account
  anytls : String → Account

-- `protocol.User`
pub record User : Type 0 where
  pub level : ℕ
  pub email : String
  pub account : Account

pub data BuildError : Type 0 where
  unsupported_type : BuildError
  -- the slice `userInfo.Uuid[:keyLength]` is out of range: a panic
  key_too_short : BuildError

abbrev user_with : String → UserInfo → Account → User
user_with tag u a = record { level = 0; email = user_tag tag u.uuid; account = a }

pub build_vmess_user : String → UserInfo → User
build_vmess_user tag u = user_with tag u (vmess u.uuid "auto")

pub build_vless_user : String → String → UserInfo → User
build_vless_user flow tag u = user_with tag u (vless u.uuid flow)

pub build_trojan_user : String → UserInfo → User
build_trojan_user tag u = user_with tag u (trojan u.uuid)

-- the length of the key of a 2022 cipher, 0 for an unknown one
pub key_length : String → ℕ
key_length cipher =
    if cipher == "2022-blake3-aes-128-gcm"
    then 16
    else if cipher == "2022-blake3-aes-256-gcm"
    then 32
    else if cipher == "2022-blake3-chacha20-poly1305"
    then 32
    else 0

pub build_ss_user : String → String → UserInfo → Result BuildError User
unfolding get_cipher_from_string key_length
build_ss_user cipher tag u =
    if not (contains cipher "2022")
    then ok (user_with tag u (shadowsocks u.uuid (get_cipher_from_string cipher)))
    else elim (take (key_length cipher) u.uuid) [
      | none ↦ err key_too_short
      | some key ↦ ok (user_with tag u (shadowsocks_2022 (encode key)))
    ]

pub build_hysteria2_user : String → UserInfo → User
build_hysteria2_user tag u = user_with tag u (hysteria u.uuid)

pub build_tuic_user : String → UserInfo → User
build_tuic_user tag u = user_with tag u (tuic u.uuid u.uuid)

pub build_anytls_user : String → UserInfo → User
build_anytls_user tag u = user_with tag u (anytls u.uuid)

pub build_ss_users : String → String → List UserInfo → Result BuildError (List User)
unfolding build_ss_user
build_ss_users cipher tag [] = ok []
build_ss_users cipher tag (u ∷ us) = do
  user ← build_ss_user cipher tag u
  rest ← build_ss_users cipher tag us
  ok (user ∷ rest)

-- the `switch` of `AddUsers` on the type of the node
unfoldable pub build_users : String → NodeInfo → List UserInfo → Result BuildError (List User)
unfolding build_vmess_user build_vless_user build_trojan_user build_ss_users build_hysteria2_user
    build_tuic_user build_anytls_user
build_users tag info us =
    let t = info.node_type in
    if t == "vmess"
    then ok (map (build_vmess_user tag) us)
    else if t == "vless"
    then ok (map (build_vless_user info.protocol.flow tag) us)
    else if t == "trojan"
    then ok (map (build_trojan_user tag) us)
    else if t == "shadowsocks"
    then build_ss_users info.protocol.cipher tag us
    else if t == "hysteria2" || t == "hysteria"
    then ok (map (build_hysteria2_user tag) us)
    else if t == "tuic"
    then ok (map (build_tuic_user tag) us)
    else if t == "anytls"
    then ok (map (build_anytls_user tag) us)
    else err unsupported_type
