-- ===== src/Limiter/Period.antt =====
-- The period after `GetOnlineDevice`: addresses that were online pass the device limit.
use kknode.Base.{
  ◌≢◌, All, String, ◌≡◌, refl, ◌∙◌, Bool, true, false, ◌||◌, some, List, [], ◌∷◌, ◌++◌, arith,
  Option-cases, is_some, inl, inr,
}
use kknode.Base.Int.{ℤ}
use kknode.Base.Eq.{string_eq, ◌==◌, beq_ne}
use kknode.Base.Map.{Map, load, store, load-store, load-delete}
use kknode.Base.Text.{trim_prefix}
use kknode.Panel.{OnlineUser}
use kknode.Limiter.{Limiter, UserLimitInfo, get_online_device}
use kknode.Limiter.Access.{
  Found, Verdict, find_user, check_device, check_bucket, check_found, check_limit,
}
use kknode.Limiter.Check.{online, is_known, must_reject, check_limit-reject}
use kknode.Limiter.Online.{devices_of, devices, remember, offline, get_online_device_lem}

abbrev has_ip : String → List OnlineUser → Bool
has_ip ip [] = false
has_ip ip (d ∷ ds) = d.ip == ip || has_ip ip ds

has_ip-append :
    (ip : String) (xs ys : List OnlineUser) → has_ip ip (xs ++ ys) ≡ (has_ip ip xs || has_ip ip ys)
has_ip-append ip [] ys = refl
has_ip-append ip (d ∷ xs) ys = ground (arith, has_ip-append ip xs ys)

has_ip-devices_of :
    (ip : String) (ips : Map String ℤ) → has_ip ip (devices_of ips) ≡ is_some (load ip ips)
unfolding load
has_ip-devices_of ip [] = refl
has_ip-devices_of ip ((i, uid) ∷ ips) = ground (arith, has_ip-devices_of ip ips)

has_ip-devices :
    (t ip : String) (us : Map String (Map String ℤ)) (m : Map String ℤ) (v : ℤ)
    → load t us ≡ some m
    → load ip m ≡ some v
    → has_ip ip (devices us) ≡ true
unfolding load
has_ip-devices t ip [] m v h k = cc
has_ip-devices t ip ((s, ips) ∷ us) m v h k = ground (
  arith,
  has_ip-devices t ip us m v,
  has_ip-append ip (devices_of ips) (devices us),
  has_ip-devices_of ip ips,
)

is_some-remember :
    (ip : String) (ds : List OnlineUser) (old : Map String ℤ)
    → is_some (load ip (remember ds old)) ≡ (has_ip ip ds || is_some (load ip old))
unfolding remember
is_some-remember ip [] old = refl
is_some-remember ip (d ∷ ds) old = ground (
  arith,
  is_some-remember ip ds (store d.ip d.uid old),
  load-store d.ip ip d.uid old,
  string_eq.beq_iff d.ip ip,
)

-- A call of `CheckLimit`.
pub record Connection : Type 0 where
  pub taguuid : String
  pub ip : String
  pub is_tcp : Bool
  pub no_ss_udp : Bool
  pub now : ℤ

abbrev pub connect : Limiter → Connection → Verdict
connect l c = check_limit l c.taguuid c.ip c.is_tcp c.no_ss_udp c.now

abbrev pub connect_all : List Connection → Limiter → Limiter
connect_all [] l = l
connect_all (c ∷ cs) l = connect_all cs (connect l c).state

-- What the decision for a user and an address depends on is the same.
Unmoved : String → String → Limiter → Limiter → Type 0
Unmoved t ip l' l =
    (load t l'.user_online_ip ≡ load t l.user_online_ip)
    × (load ip l'.old_user_online ≡ load ip l.old_user_online)
    × (load t l'.user_limit_info ≡ load t l.user_limit_info)

check_device-Unmoved :
    (t ip s jp : String) (uid dl : ℤ) (l : Limiter)
    → (s == t) ≡ false
    → (jp == ip) ≡ false
    → Unmoved t ip (check_device l s jp uid dl).0 l
unfolding check_device Unmoved
check_device-Unmoved t ip s jp uid dl l h k = grind (arith, load-store, load-delete)

check_found-Unmoved :
    (t ip s jp : String) (b : Bool) (f : Found)
    → (s == t) ≡ false
    → (jp == ip) ≡ false
    → Unmoved t ip (check_found f s jp b).state f.state
unfolding check_found check_bucket Unmoved
check_found-Unmoved t ip s jp b f h k =
    let d : Unmoved t ip (check_device f.state s jp f.uid f.device_limit).0 f.state =
      check_device-Unmoved t ip s jp f.uid f.device_limit f.state h k in
    ground (arith, d.0, d.1, d.2)

find_user-Unmoved :
    (t ip s : String) (now : ℤ) (l : Limiter) (f : Found)
    → (s == t) ≡ false
    → find_user l s now ≡ some f
    → Unmoved t ip f.state l
unfolding find_user Unmoved
find_user-Unmoved t ip s now l f h e = grind (arith, load-store, load-delete)

-- A connection of another user from another address.
abbrev pub Elsewhere : String → String → Connection → Type 0
Elsewhere t ip c = (c.taguuid ≢ t) × (trim_prefix c.ip "::ffff:" ≢ ip)

connect-Unmoved :
    (t ip : String) (c : Connection) (l : Limiter)
    → Elsewhere t ip c
    → Unmoved t ip (connect l c).state l
unfolding check_limit Unmoved
connect-Unmoved t ip c l h =
    let tag = beq_ne c.taguuid t h.0 in
    let address = beq_ne (trim_prefix c.ip "::ffff:") ip h.1 in
    elim (Option-cases (find_user l c.taguuid c.now)) [
      | inl e ↦ rw (e, check_limit) (refl, refl, refl)
      | inr (f, e) ↦
          let d =
            check_found-Unmoved t ip c.taguuid (trim_prefix c.ip "::ffff:") c.no_ss_udp f tag
              address in
          let k = find_user-Unmoved t ip c.taguuid c.now l f tag e in
          rw (e, check_limit) (d.0 ∙ k.0, d.1 ∙ k.1, d.2 ∙ k.2)
    ]

connect_all-Unmoved :
    (t ip : String) (cs : List Connection) (l : Limiter)
    → All (Elsewhere t ip) cs
    → Unmoved t ip (connect_all cs l) l
unfolding Unmoved
connect_all-Unmoved t ip [] l h = (refl, refl, refl)
connect_all-Unmoved t ip (c ∷ cs) l h =
    let d = connect_all-Unmoved t ip cs (connect l c).state h.1 in
    let k = connect-Unmoved t ip c l h.0 in (d.0 ∙ k.0, d.1 ∙ k.1, d.2 ∙ k.2)

-- An address that was online when the devices were collected passes the device limit in the next
-- period: after any calls of `CheckLimit` that are for other users and from other addresses, the
-- first connection from it, of whichever user that has an entry, is not rejected.
pub check_limit-get_online_device :
    (l : Limiter) (s t ip : String) (cs : List Connection) (is_tcp no_ss_udp : Bool) (now v : ℤ)
    (u : UserLimitInfo)
    → online l s (trim_prefix ip "::ffff:") ≡ some v
    → load t (get_online_device l).0.user_limit_info ≡ some u
    → All (Elsewhere t (trim_prefix ip "::ffff:")) cs
    → (check_limit (connect_all cs (get_online_device l).0) t ip is_tcp no_ss_udp now).reject
      ≡ false
unfolding must_reject is_known Unmoved
check_limit-get_online_device l s t ip cs is_tcp no_ss_udp now v u on has others =
    let ip' = trim_prefix ip "::ffff:" in
    let (l', ds) = get_online_device l in
    let (rep, old, _) = get_online_device_lem l in
    let (nobody, seen, entry) = connect_all-Unmoved t ip' cs l' others in
    elim (Option-cases (load s l.user_online_ip)) [
      | inl e ↦ ground arith
      | inr (m, e) ↦ rw (check_limit-reject (connect_all cs l') t ip is_tcp no_ss_udp now) (
          grind (
            arith,
            offline l t,
            nobody,
            seen,
            entry,
            is_some-remember ip' ds l.old_user_online,
            has_ip-devices s ip' l.user_online_ip m v e,
          ))
    ]
