-- ===== src/Limiter/Check.antt =====
-- What `CheckLimit` decides and what it records.
use kknode.Base.{
  String, ◌≡◌, inl, inr, Bool, true, false, not, ◌&&◌, Option, none, some, arith, if◌then◌else◌,
  Option-cases, is_some,
}
use kknode.Base.Int.{ℤ, pos, int_eq}
use kknode.Base.Eq.{string_eq, ◌==◌}
use kknode.Base.Map.{load, load_or, load-store, load-delete}
use kknode.Base.Text.{trim_prefix}
use kknode.Limiter.{Limiter, UserLimitInfo}
use kknode.Limiter.Access.{
  Found, is_full, find_user, check_device, check_bucket, check_found, check_limit,
}

-- The uid that is online under a tag from an address.
abbrev pub online : Limiter → String → String → Option ℤ
online l taguuid ip = elim (load taguuid l.user_online_ip) [ none ↦ none | some m ↦ load ip m ]

-- The address needs no room: it is online for the user, or no address of the user is and it was
-- seen, for whatever user, in the period before.
unfoldable pub is_known : Limiter → String → String → Bool
is_known l taguuid ip = elim (load taguuid l.user_online_ip) [
  | none ↦ is_some (load ip l.old_user_online)
  | some m ↦ is_some (load ip m)
]

-- The decision, from the state before the call.
unfoldable pub must_reject : Limiter → String → String → Bool → Bool
unfolding is_known
must_reject l taguuid ip no_ss_udp = elim (load taguuid l.user_limit_info) [
  | none ↦ true
  | some u ↦
      no_ss_udp
      && is_full u.device_limit (load_or (pos 0) u.uid l.alive_list)
      && not (is_known l taguuid ip)
]

check_device-reject :
    (l : Limiter) (taguuid ip : String) (uid dl : ℤ)
    → (check_device l taguuid ip uid dl).1
      ≡ (is_full dl (load_or (pos 0) uid l.alive_list) && not (is_known l taguuid ip))
unfolding check_device is_known
check_device-reject l taguuid ip uid dl = ground arith

check_found-reject :
    (f : Found) (taguuid ip : String) (no_ss_udp : Bool)
    → (check_found f taguuid ip no_ss_udp).reject ≡ (
        no_ss_udp
        && is_full f.device_limit (load_or (pos 0) f.uid f.state.alive_list)
        && not (is_known f.state taguuid ip))
unfolding check_found
check_found-reject f taguuid ip no_ss_udp =
    ground (arith, check_device-reject f.state taguuid ip f.uid f.device_limit)

-- The call rejects exactly where there is no entry for the user, or the connection counts for the
-- device limit, that limit is reached, and the address is not known.
pub check_limit-reject :
    (l : Limiter) (taguuid ip : String) (is_tcp no_ss_udp : Bool) (now : ℤ)
    → (check_limit l taguuid ip is_tcp no_ss_udp now).reject
      ≡ must_reject l taguuid (trim_prefix ip "::ffff:") no_ss_udp
unfolding check_limit find_user must_reject is_known
check_limit-reject l taguuid ip is_tcp no_ss_udp now = grind (arith, check_found-reject)

-- A rejected device leaves no trace in the table of online addresses.
check_device-rejected :
    (l : Limiter) (taguuid ip : String) (uid dl : ℤ) (t i : String)
    → (check_device l taguuid ip uid dl).1 ≡ true
    → online (check_device l taguuid ip uid dl).0 t i ≡ online l t i
unfolding check_device load
check_device-rejected l taguuid ip uid dl t i h =
    grind (arith, load-store, load-delete, string_eq.beq_iff taguuid t, string_eq.beq_iff ip i)

-- An accepted one is online, and every other address is as before.
check_device-accepted :
    (l : Limiter) (taguuid ip : String) (uid dl : ℤ) (t i : String)
    → (check_device l taguuid ip uid dl).1 ≡ false
    → online (check_device l taguuid ip uid dl).0 t i ≡ (
        if taguuid == t && ip == i
        then some (elim (online l taguuid ip) [ none ↦ uid | some v ↦ v ])
        else online l t i)
unfolding check_device load
check_device-accepted l taguuid ip uid dl t i h =
    grind (arith, load-store, load-delete, string_eq.beq_iff taguuid t, string_eq.beq_iff ip i)

-- The first part of `CheckLimit` reads the table of online addresses and does not change it.
find_user-online :
    (l : Limiter) (taguuid : String) (now : ℤ) (f : Found)
    → find_user l taguuid now ≡ some f
    → (f.state.user_online_ip ≡ l.user_online_ip) × (f.state.old_user_online ≡ l.old_user_online)
unfolding find_user
find_user-online l taguuid now f h = ground arith

check_bucket-online :
    (l : Limiter) (taguuid : String) (limit : ℤ)
    → (check_bucket l taguuid limit).0.user_online_ip ≡ l.user_online_ip
unfolding check_bucket
check_bucket-online l taguuid limit = ground arith

check_found-rejected :
    (f : Found) (taguuid ip : String) (no_ss_udp : Bool) (t i : String)
    → (check_found f taguuid ip no_ss_udp).reject ≡ true
    → online (check_found f taguuid ip no_ss_udp).state t i ≡ online f.state t i
unfolding check_found
check_found-rejected f taguuid ip no_ss_udp t i h =
    ground (arith, check_device-rejected f.state taguuid ip f.uid f.device_limit t i)

-- A rejected connection leaves no trace in the table of online addresses, for any user.
pub check_limit-rejected_online :
    (l : Limiter) (taguuid ip : String) (is_tcp no_ss_udp : Bool) (now : ℤ) (t i : String)
    → (check_limit l taguuid ip is_tcp no_ss_udp now).reject ≡ true
    → online (check_limit l taguuid ip is_tcp no_ss_udp now).state t i ≡ online l t i
unfolding check_limit
check_limit-rejected_online l taguuid ip is_tcp no_ss_udp now t i h =
    elim (Option-cases (find_user l taguuid now)) [
      | inl e ↦ rw (e, check_limit)
      | inr (f, e) ↦
          let same = find_user-online l taguuid now f e in
          grind (arith, check_found-rejected f taguuid (trim_prefix ip "::ffff:") no_ss_udp t i)
    ]

check_found-accepted :
    (f : Found) (taguuid ip : String) (t i : String)
    → (check_found f taguuid ip true).reject ≡ false
    → online (check_found f taguuid ip true).state t i ≡ (
        if taguuid == t && ip == i
        then some (elim (online f.state taguuid ip) [ none ↦ f.uid | some v ↦ v ])
        else online f.state t i)
unfolding check_found
check_found-accepted f taguuid ip t i h =
    grind (
      arith,
      check_device-accepted f.state taguuid ip f.uid f.device_limit t i,
      check_bucket-online,
    )

-- Where a connection that counts is accepted, its address, without the prefix of mapped IPv4, is
-- online for the user afterwards, and every other address of every user is as before.
pub check_limit-accepted_online :
    (l : Limiter) (taguuid ip : String) (is_tcp : Bool) (now : ℤ) (u : UserLimitInfo) (t i : String)
    → load taguuid l.user_limit_info ≡ some u
    → (check_limit l taguuid ip is_tcp true now).reject ≡ false
    → let ip' = trim_prefix ip "::ffff:" in
      online (check_limit l taguuid ip is_tcp true now).state t i ≡ (
        if taguuid == t && ip' == i
        then some (elim (online l taguuid ip') [ none ↦ u.uid | some v ↦ v ])
        else online l t i)
unfolding check_limit find_user
check_limit-accepted_online l taguuid ip is_tcp now u t i has h =
    grind (arith, check_found-accepted)
