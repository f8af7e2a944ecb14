-- ===== src/Limiter/Access.antt =====
-- limiter/limiter.go: `CheckLimit`, which a new connection passes. Time is an argument.
use kknode.Base.{String, Bool, true, false, not, ◌&&◌, [], ◌∷◌, Option, none, some, if◌then◌else◌}
use kknode.Base.Int.{ℤ, pos, ltb_ℤ, leb_ℤ, eqb_ℤ, wrap64, ◌*ℤ◌, quot, int_eq}
use kknode.Base.Eq.{string_eq}
use kknode.Base.Map.{load, load_or, store, delete}
use kknode.Base.Text.{trim_prefix}
use kknode.Limiter.{determine_speed_limit, Bucket, Limiter}

-- What the first part of `CheckLimit` finds out about the user.
pub record Found : Type 0 where
  pub state : Limiter
  pub uid : ℤ
  pub device_limit : ℤ
  pub user_limit : ℤ

-- The user's entry, where a limit that has run out is taken back; `none` if there is no entry.
unfoldable pub find_user : Limiter → String → ℤ → Option Found
find_user l taguuid now = elim (load taguuid l.user_limit_info) [
  | none ↦ none
  | some u ↦
      if ltb_ℤ u.expire_time now && not (eqb_ℤ u.expire_time (pos 0))
      then if not (eqb_ℤ u.speed_limit (pos 0))
        then some (record {
          state = record l {
            user_limit_info =
                store taguuid (record u { dynamic_speed_limit = pos 0; expire_time = pos 0 })
                  l.user_limit_info;
          };
          uid = u.uid;
          device_limit = u.device_limit;
          user_limit = u.speed_limit;
        })
        else some (record {
          state = record l { user_limit_info = delete taguuid l.user_limit_info };
          uid = u.uid;
          device_limit = u.device_limit;
          user_limit = pos 0;
        })
      else some (record {
        state = l;
        uid = u.uid;
        device_limit = u.device_limit;
        user_limit = determine_speed_limit u.speed_limit u.dynamic_speed_limit;
      })
]

-- The device limit is positive, and that many addresses are alive already.
unfoldable pub is_full : ℤ → ℤ → Bool
is_full device_limit alive_ip = ltb_ℤ (pos 0) device_limit && leb_ℤ device_limit alive_ip

-- The bookkeeping of online addresses; `true` rejects the connection.
unfoldable pub check_device : Limiter → String → String → ℤ → ℤ → Limiter × Bool
check_device l taguuid ip uid device_limit =
    let full = is_full device_limit (load_or (pos 0) uid l.alive_list) in
    elim (load taguuid l.user_online_ip) [
      | some ip_map ↦ elim (load ip ip_map) [
        | some _ ↦ (l, false)
        | none ↦
            let seen = store ip uid ip_map in
            if full
            then (
              record l { user_online_ip = store taguuid (delete ip seen) l.user_online_ip },
              true,
            )
            else (record l { user_online_ip = store taguuid seen l.user_online_ip }, false)
      ]
      | none ↦
          let l' = record l { user_online_ip = store taguuid ((ip, uid) ∷ []) l.user_online_ip } in
          elim (load ip l.old_user_online) [
            | some v ↦
                if eqb_ℤ v uid
                then (record l' { old_user_online = delete ip l.old_user_online }, false)
                else (l', false)
            | none ↦
                if full
                then (record l' { user_online_ip = delete taguuid l'.user_online_ip }, true)
                else (l', false)
          ]
    ]

-- Mbit/s as bytes per second: `int64(limit) * 1000000 / 8`
unfoldable pub byte_rate : ℤ → ℤ
byte_rate limit = quot (wrap64 (limit *ℤ pos 1000000)) 8

-- The token bucket of the user, made at the first connection that has a limit.
unfoldable pub check_bucket : Limiter → String → ℤ → Limiter × Option Bucket
check_bucket l taguuid user_limit =
    let limit = byte_rate (determine_speed_limit l.speed_limit user_limit) in
    if ltb_ℤ (pos 0) limit
    then elim (load taguuid l.speed_limiter) [
      | some b ↦ (l, some b)
      | none ↦
          let b : Bucket = record { capacity = limit; quantum = limit } in
          (record l { speed_limiter = store taguuid b l.speed_limiter }, some b)
    ]
    else (l, none)

-- What `CheckLimit` leaves and returns.
pub record Verdict : Type 0 where
  pub state : Limiter
  pub bucket : Option Bucket
  pub reject : Bool

-- the part of `CheckLimit` after the user is found
unfoldable pub check_found : Found → String → String → Bool → Verdict
check_found f taguuid ip no_ss_udp =
    let (l, reject) =
      if no_ss_udp
      then check_device f.state taguuid ip f.uid f.device_limit
      else (f.state, false) in
    if reject
    then record { state = l; bucket = none; reject = true }
    else let (l', bucket) = check_bucket l taguuid f.user_limit in
      record { state = l'; bucket = bucket; reject = false }

-- `now` is `time.Now().Unix()`. The parameter `isTcp` is not read.
unfoldable pub check_limit : Limiter → String → String → Bool → Bool → ℤ → Verdict
check_limit l taguuid ip is_tcp no_ss_udp now = elim (find_user l taguuid now) [
  | none ↦ record { state = l; bucket = none; reject = true }
  | some f ↦ check_found f taguuid (trim_prefix ip "::ffff:") no_ss_udp
]
