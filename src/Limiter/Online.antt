-- ===== src/Limiter/Online.antt =====
-- `GetOnlineDevice`: what is reported, what is reset, and what is remembered for the next period.
use kknode.Base.{
  String, ◌≡◌, refl, ap, sym, ◌∙◌, true, none, List, [], ◌∷◌, ◌++◌, append-nil, append_assoc, arith,
  is_some, is_some-cases, ◌⊎◌, inl, inr,
}
use kknode.Base.Int.{ℤ}
use kknode.Base.Eq.{string_eq}
use kknode.Base.Map.{Map, load, store, delete, load-delete}
use kknode.Panel.{OnlineUser}
use kknode.Limiter.{Limiter, collect_ips, collect_users, get_online_device}
use kknode.Limiter.Check.{online}

-- the devices of one user, and of all
abbrev pub devices_of : Map String ℤ → List OnlineUser
devices_of [] = []
devices_of ((ip, uid) ∷ ips) = record { uid = uid; ip = ip } ∷ devices_of ips

abbrev pub devices : Map String (Map String ℤ) → List OnlineUser
devices [] = []
devices ((t, ips) ∷ us) = devices_of ips ++ devices us

-- The addresses of a report, put on record one after the other.
unfoldable pub remember : List OnlineUser → Map String ℤ → Map String ℤ
remember [] old = old
remember (d ∷ ds) old = remember ds (store d.ip d.uid old)

remember-append :
    (xs ys : List OnlineUser) (old : Map String ℤ)
    → remember (xs ++ ys) old ≡ remember ys (remember xs old)
unfolding remember
remember-append [] ys old = refl
remember-append (d ∷ xs) ys old = remember-append xs ys (store d.ip d.uid old)

collect_ips_lem :
    (ips : Map String ℤ) (old : Map String ℤ) (out : List OnlineUser)
    → collect_ips ips old out ≡ (remember (devices_of ips) old, out ++ devices_of ips)
unfolding collect_ips remember
collect_ips_lem [] old out = rw (append-nil out)
collect_ips_lem ((ip, uid) ∷ ips) old out =
    rw (collect_ips_lem ips (store ip uid old) (out ++ record { uid = uid; ip = ip } ∷ []))
      (rw (append_assoc out (record { uid = uid; ip = ip } ∷ []) (devices_of ips)))

collect_users-report :
    (us : Map String (Map String ℤ)) (l : Limiter) (out : List OnlineUser)
    → ((collect_users us l out).1 ≡ out ++ devices us)
      × ((collect_users us l out).0.old_user_online ≡ remember (devices us) l.old_user_online)
unfolding collect_users remember
collect_users-report [] l out = (sym (append-nil out), refl)
collect_users-report ((t, ips) ∷ us) l out = ground (
  arith,
  collect_users-report us
      (record l {
        user_online_ip = delete t l.user_online_ip;
        old_user_online = (collect_ips ips l.old_user_online out).0;
      })
      (collect_ips ips l.old_user_online out).1,
  collect_ips_lem ips l.old_user_online out,
  append_assoc out (devices_of ips) (devices us),
  remember-append (devices_of ips) (devices us) l.old_user_online,
)

collect_users-load :
    (t : String) (us : Map String (Map String ℤ)) (l : Limiter) (out : List OnlineUser)
    → load t l.user_online_ip ≡ none ⊎ (is_some (load t us) ≡ true)
    → load t (collect_users us l out).0.user_online_ip ≡ none
unfolding collect_users load
collect_users-load t [] l out (inl h) = h
collect_users-load t [] l out (inr h) = cc
collect_users-load t ((s, ips) ∷ us) l out h =
    collect_users-load t us _ _
      (grind (arith, load-delete s t l.user_online_ip, string_eq.beq_iff s t))

pub offline : (l : Limiter) (t : String) → load t (get_online_device l).0.user_online_ip ≡ none
unfolding get_online_device
offline l t = collect_users-load t l.user_online_ip l [] (is_some-cases (load t l.user_online_ip))

-- The report holds exactly the online addresses, each with its uid. They are put on record for the
-- next period, and no address is online afterwards.
pub get_online_device_lem :
    (l : Limiter)
    → ((get_online_device l).1 ≡ devices l.user_online_ip)
      × ((get_online_device l).0.old_user_online
          ≡ remember (get_online_device l).1 l.old_user_online)
      × ((t ip : String) → online (get_online_device l).0 t ip ≡ none)
unfolding get_online_device
get_online_device_lem l =
    let r = collect_users-report l.user_online_ip l [] in
    (
      r.0,
      r.1 ∙ ap (λ ds. remember ds l.old_user_online) (sym r.0),
      λ t ip. rw (offline l t, online),
    )
