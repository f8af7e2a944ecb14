-- ===== src/Users/Accounts/Emails.antt =====
-- The accounts that `AddUsers` builds: one for each user, under the key of the user.
use kknode.Base.{
  String, ◌≡◌, refl, ap, sym, ◌∙◌, Bool, true, false, ◌||◌, List, [], ◌∷◌, map, if◌then◌else◌,
  arith,
}
use kknode.Base.Eq.{string_eq, ◌==◌}
use kknode.Base.Result.{Result, ok, err, ok_first}
use kknode.Limiter.{user_tag}
use kknode.Panel.{UserInfo, NodeInfo}
use kknode.Users.Accounts.{
  User, BuildError, unsupported_type, build_users, build_ss_users, build_ss_user, build_vmess_user,
  build_vless_user, build_trojan_user, build_hysteria2_user, build_tuic_user, build_anytls_user,
}

abbrev pub emails : List User → List String
emails = map (λ u. u.email)

abbrev pub user_tags : String → List UserInfo → List String
user_tags tag = map (λ u. user_tag tag u.uuid)

emails-map :
    (tag : String) (f : UserInfo → User)
    → ((u : UserInfo) → (f u).email ≡ user_tag tag u.uuid)
    → (us : List UserInfo) → emails (map f us) ≡ user_tags tag us
emails-map tag f h [] = refl
emails-map tag f h (u ∷ us) = rw (h u, emails-map tag f h us) refl

-- Whatever accounts a result has, they are those of the users.
abbrev pub HasEmails : String → List UserInfo → Result BuildError (List User) → Type 0
HasEmails tag us r = (users : List User) → r ≡ ok users → emails users ≡ user_tags tag us

HasEmails-if :
    (tag : String) (us : List UserInfo) (b : Bool) (x y : Result BuildError (List User))
    → HasEmails tag us x
    → HasEmails tag us y
    → HasEmails tag us (if b then x else y)
HasEmails-if tag us true x y p q = p
HasEmails-if tag us false x y p q = q

HasEmails-map :
    (tag : String) (us : List UserInfo) (f : UserInfo → User)
    → ((u : UserInfo) → (f u).email ≡ user_tag tag u.uuid)
    → HasEmails tag us (ok (map f us))
HasEmails-map tag us f h users e =
    let e' : map f us ≡ users = cc in sym (ap emails e') ∙ emails-map tag f h us

build_ss_user-email :
    (cipher tag : String) (u : UserInfo) (user : User)
    → build_ss_user cipher tag u ≡ ok user
    → user.email ≡ user_tag tag u.uuid
unfolding build_ss_user
build_ss_user-email cipher tag u user h = grind arith

build_ss_users-emails :
    (cipher tag : String) (us : List UserInfo) → HasEmails tag us (build_ss_users cipher tag us)
unfolding build_ss_users
build_ss_users-emails cipher tag [] users h = grind arith
build_ss_users-emails cipher tag (u ∷ us) users h =
    let (user, e, h') = ok_first (build_ss_user cipher tag u) _ h in
    let (rest, e', h'') = ok_first (build_ss_users cipher tag us) _ h' in
    let ih = build_ss_users-emails cipher tag us rest e' in
    let one = build_ss_user-email cipher tag u user e in
    let parts : user ∷ rest ≡ users = cc in sym (ap emails parts) ∙ rw (one, ih) refl

HasEmails-err : (tag : String) (us : List UserInfo) (x : BuildError) → HasEmails tag us (err x)
HasEmails-err tag us x users h = cc

-- Where `AddUsers` builds accounts, of whatever type of node, there is one for each user of the
-- list, in order, and its email is the user's key in the limiter, the uids and the counters.
pub build_users-emails :
    (tag : String) (info : NodeInfo) (us : List UserInfo) (users : List User)
    → build_users tag info us ≡ ok users
    → emails users ≡ user_tags tag us
unfolding build_users build_vmess_user build_vless_user build_trojan_user build_hysteria2_user
    build_tuic_user build_anytls_user
build_users-emails tag info us =
    let t = info.node_type in
    let each = λ (f : UserInfo → User) (h : (u : UserInfo) → (f u).email ≡ user_tag tag u.uuid).
      HasEmails-map tag us f h in
    let p1 = each (build_vmess_user tag) (λ u. refl) in
    let p2 = each (build_vless_user info.protocol.flow tag) (λ u. refl) in
    let p3 = each (build_trojan_user tag) (λ u. refl) in
    let p4 = build_ss_users-emails info.protocol.cipher tag us in
    let p5 = each (build_hysteria2_user tag) (λ u. refl) in
    let p6 = each (build_tuic_user tag) (λ u. refl) in
    let p7 = each (build_anytls_user tag) (λ u. refl) in
    let q7 = HasEmails-if tag us (t == "anytls") _ _ p7 (HasEmails-err tag us unsupported_type) in
    let q6 = HasEmails-if tag us (t == "tuic") _ _ p6 q7 in
    let q5 = HasEmails-if tag us (t == "hysteria2" || t == "hysteria") _ _ p5 q6 in
    let q4 = HasEmails-if tag us (t == "shadowsocks") _ _ p4 q5 in
    let q3 = HasEmails-if tag us (t == "trojan") _ _ p3 q4 in
    let q2 = HasEmails-if tag us (t == "vless") _ _ p2 q3 in
    HasEmails-if tag us (t == "vmess") _ _ p1 q2
