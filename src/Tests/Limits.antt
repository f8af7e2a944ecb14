-- ===== src/Tests/Limits.antt =====
-- Runs of limiter/limiter.go.
use kknode.Base.{String, ◌≡◌, refl, Bool, true, false, none, some, [], ◌∷◌}
use kknode.Base.Int.{ℤ, pos}
use kknode.Base.Map.{load, load_or, store, delete}
use kknode.Base.Eq.{ne_of_beq, string_eq}
use kknode.Base.Text.{trim_prefix}
use kknode.Panel.{UserInfo}
use kknode.Limiter.{
  Limiter, user_tag, new_user_limit, new_limiter, update_user, get_online_device,
  determine_speed_limit, add_users, add_user, delete_users, delete_user, collect_users, collect_ips,
}
use kknode.Limiter.Access.{
  check_limit, byte_rate, find_user, check_found, check_device, check_bucket, is_full,
}
use kknode.Limiter.Check.{
  must_reject, is_known, online, check_limit-reject, check_limit-rejected_online,
  check_limit-accepted_online,
}
use kknode.Limiter.Users.{
  IsConsistent, has_uuid, last_with, update_user-load, update_user-IsConsistent,
}
use kknode.Limiter.Expiry.{NoExpiry, run, run-new_limiter-NoExpiry}
use kknode.Limiter.Online.{remember, get_online_device_lem}
use kknode.Limiter.Period.{Connection, connect_all, check_limit-get_online_device}

program : Unit {0}
unfolding load load_or store delete trim_prefix user_tag new_user_limit new_limiter add_users
    add_user update_user delete_users delete_user find_user check_found check_device check_bucket
    is_full check_limit get_online_device collect_users collect_ips determine_speed_limit byte_rate
    must_reject is_known has_uuid last_with
program = tt

abbrev alice : UserInfo
alice = record { id = pos 1; uuid = "a"; speed_limit = pos 10; device_limit = pos 1 }

abbrev bob : UserInfo
bob = record { id = pos 2; uuid = "b"; speed_limit = pos 0; device_limit = pos 1 }

-- Both users have one address alive, which is as many as either may have.
abbrev both : Limiter
both = new_limiter "n" (alice ∷ bob ∷ []) ((pos 1, pos 1) ∷ (pos 2, pos 1) ∷ [])

-- Alice is online from one address.
abbrev alice_online : Limiter
alice_online = record both { user_online_ip = ("n|a", ("1.1.1.1", pos 1) ∷ []) ∷ [] }

abbrev with_room : Limiter
with_room = record both { alive_list = [] }

check_limit-reject_example : (check_limit both "n|a" "1.1.1.1" true true (pos 0)).reject ≡ true
unfolding program
check_limit-reject_example = check_limit-reject both "n|a" "1.1.1.1" true true (pos 0)

check_limit-rejected_online_example :
    online (check_limit alice_online "n|a" "::ffff:2.2.2.2" true true (pos 0)).state "n|a" "1.1.1.1"
    ≡ some (pos 1)
unfolding program
check_limit-rejected_online_example =
    check_limit-rejected_online alice_online "n|a" "::ffff:2.2.2.2" true true (pos 0) "n|a"
      "1.1.1.1" refl

check_limit-accepted_online_example :
    online (check_limit with_room "n|a" "::ffff:2.2.2.2" true true (pos 0)).state "n|a" "2.2.2.2"
    ≡ some (pos 1)
unfolding program
check_limit-accepted_online_example =
    check_limit-accepted_online with_room "n|a" "::ffff:2.2.2.2" true (pos 0) (new_user_limit alice)
      "n|a" "2.2.2.2" refl refl

update_user-load_example :
    load (user_tag "n" "b") (update_user "n" (alice ∷ []) (bob ∷ []) both).user_limit_info ≡ none
unfolding program
update_user-load_example = update_user-load "n" "b" (alice ∷ []) (bob ∷ []) both

abbrev nobody : Limiter
nobody = record both { user_limit_info = []; uuid_to_uid = [] }

nobody-IsConsistent : IsConsistent "n" nobody
unfolding program
nobody-IsConsistent = record { agree = λ uuid. refl }

update_user-IsConsistent_example : IsConsistent "n" (update_user "n" (alice ∷ []) (bob ∷ []) nobody)
update_user-IsConsistent_example =
    update_user-IsConsistent "n" (alice ∷ []) (bob ∷ []) nobody nobody-IsConsistent

run-new_limiter-NoExpiry_example :
    NoExpiry (run "n" (new_limiter "n" (alice ∷ []) []) [])
    × ((t ip : String) (is_tcp b : Bool) (now : ℤ)
        → let l = run "n" (new_limiter "n" (alice ∷ []) []) [] in
          (check_limit l t ip is_tcp b now).state.user_limit_info ≡ l.user_limit_info)
run-new_limiter-NoExpiry_example = run-new_limiter-NoExpiry "n" (alice ∷ []) [] []

get_online_device_lem_example :
    ((get_online_device alice_online).1 ≡ record { uid = pos 1; ip = "1.1.1.1" } ∷ [])
    × ((get_online_device alice_online).0.old_user_online
        ≡ remember (get_online_device alice_online).1 alice_online.old_user_online)
    × ((t ip : String) → online (get_online_device alice_online).0 t ip ≡ none)
get_online_device_lem_example = get_online_device_lem alice_online

-- Bob is not rejected at the address that Alice was online from, after she came from another one.
abbrev elsewhere : Connection
elsewhere = record { taguuid = "n|a"; ip = "2.2.2.2"; is_tcp = true; no_ss_udp = true; now = pos 0 }

check_limit-get_online_device_example :
    (check_limit
      (connect_all (elsewhere ∷ []) (get_online_device alice_online).0)
      "n|b"
      "1.1.1.1"
      true
      true
      (pos 0)).reject
    ≡ false
unfolding program
check_limit-get_online_device_example =
    check_limit-get_online_device alice_online "n|a" "n|b" "1.1.1.1" (elsewhere ∷ []) true true
      (pos 0) (pos 1) (new_user_limit bob) refl refl
      ((ne_of_beq "n|a" "n|b" refl, ne_of_beq "2.2.2.2" "1.1.1.1" refl), tt)
