-- ===== src/Limiter/Expiry.antt =====
-- The limiter as a state machine: the calls that its users make, and what holds in every state
-- that they reach. The entries of `UserLimitInfo` have a dynamic limit and an expiry time, which
-- no call ever sets.
use kknode.Base.{
  String, ◌≡◌, refl, ap, sym, ◌∙◌, inl, inr, Bool, some, List, [], ◌∷◌, arith, Option-cases,
}
use kknode.Base.Int.{ℤ, pos}
use kknode.Base.Eq.{string_eq}
use kknode.Base.Map.{Map, load, load-store, load-delete}
use kknode.Panel.{UserInfo, OnlineUser}
use kknode.Limiter.{
  Limiter, UserLimitInfo, user_tag, new_user_limit, add_user, add_users, delete_user, delete_users,
  update_user, new_limiter, get_online_device, collect_users,
}
use kknode.Limiter.Access.{Found, find_user, check_device, check_bucket, check_found, check_limit}

-- No entry has a dynamic limit or a time at which it runs out.
pub record NoExpiry (l : Limiter) : Type 0 where
  pub never :
      (t : String) (u : UserLimitInfo)
      → load t l.user_limit_info ≡ some u
      → (u.expire_time ≡ pos 0) × (u.dynamic_speed_limit ≡ pos 0)

add_users-NoExpiry :
    (tag : String) (us : List UserInfo) (l : Limiter) → NoExpiry l → NoExpiry (add_users tag us l)
unfolding add_users
add_users-NoExpiry tag [] l v = v
add_users-NoExpiry tag (x ∷ us) l v = add_users-NoExpiry tag us (add_user tag l x) (record {
  never = λ t u h.
      grind
        (arith, v.never t, load-store (user_tag tag x.uuid) t (new_user_limit x) l.user_limit_info);
})

delete_users-NoExpiry :
    (tag : String) (us : List UserInfo) (l : Limiter)
    → NoExpiry l
    → NoExpiry (delete_users tag us l)
unfolding delete_users
delete_users-NoExpiry tag [] l v = v
delete_users-NoExpiry tag (x ∷ us) l v =
    delete_users-NoExpiry tag us (delete_user tag l x) (record {
      never =
          λ t u h. grind (arith, v.never t, load-delete (user_tag tag x.uuid) t l.user_limit_info);
    })

find_user-NoExpiry :
    (l : Limiter) (t : String) (now : ℤ) (f : Found)
    → NoExpiry l
    → find_user l t now ≡ some f
    → f.state ≡ l
unfolding find_user
find_user-NoExpiry l t now f v h = grind (arith, v.never t)

check_device-user_limit_info :
    (l : Limiter) (t ip : String) (uid dl : ℤ)
    → (check_device l t ip uid dl).0.user_limit_info ≡ l.user_limit_info
unfolding check_device
check_device-user_limit_info l t ip uid dl = ground arith

check_found-user_limit_info :
    (f : Found) (t ip : String) (b : Bool)
    → (check_found f t ip b).state.user_limit_info ≡ f.state.user_limit_info
unfolding check_found check_bucket
check_found-user_limit_info f t ip b =
    ground (arith, check_device-user_limit_info f.state t ip f.uid f.device_limit)

-- Where no entry runs out, no connection changes or removes the entry of a user.
pub check_limit-user_limit_info :
    (l : Limiter) (t ip : String) (is_tcp b : Bool) (now : ℤ)
    → NoExpiry l
    → (check_limit l t ip is_tcp b now).state.user_limit_info ≡ l.user_limit_info
unfolding check_limit
check_limit-user_limit_info l t ip is_tcp b now v = elim (Option-cases (find_user l t now)) [
  | inl e ↦ rw (e, check_limit)
  | inr (f, e) ↦
      rw (e, check_limit)
        (check_found-user_limit_info f t _ b
          ∙ ap (λ (s : Limiter). s.user_limit_info) (find_user-NoExpiry l t now f v e))
]

collect_users-user_limit_info :
    (us : Map String (Map String ℤ)) (l : Limiter) (out : List OnlineUser)
    → (collect_users us l out).0.user_limit_info ≡ l.user_limit_info
unfolding collect_users
collect_users-user_limit_info [] l out = refl
collect_users-user_limit_info ((t, ips) ∷ us) l out = collect_users-user_limit_info us _ _

-- What happens to the limiter of a node: the panel's user list changes, the map of alive addresses
-- is replaced, a connection comes, and the online addresses are collected.
pub data Event : Type 0 where
  update : List UserInfo → List UserInfo → Event
  alive : Map ℤ ℤ → Event
  connect : String → String → Bool → Bool → ℤ → Event
  collect : Event

pub step : String → Limiter → Event → Limiter
step tag l (update added deleted) = update_user tag added deleted l
step tag l (alive m) = record l { alive_list = m }
step tag l (connect t ip is_tcp b now) = (check_limit l t ip is_tcp b now).state
step tag l collect = (get_online_device l).0

pub run : String → Limiter → List Event → Limiter
unfolding step
run tag l [] = l
run tag l (e ∷ es) = run tag (step tag l e) es

NoExpiry-transport :
    (l l' : Limiter) → l'.user_limit_info ≡ l.user_limit_info → NoExpiry l → NoExpiry l'
NoExpiry-transport l l' e v = record { never = λ t u h. v.never t u (ap (load t) (sym e) ∙ h) }

step-NoExpiry : (tag : String) (l : Limiter) (e : Event) → NoExpiry l → NoExpiry (step tag l e)
unfolding step update_user get_online_device
step-NoExpiry tag l (update added deleted) v =
    add_users-NoExpiry tag added _ (delete_users-NoExpiry tag deleted l v)
step-NoExpiry tag l (alive m) v = NoExpiry-transport l _ refl v
step-NoExpiry tag l (connect t ip is_tcp b now) v =
    NoExpiry-transport l _ (check_limit-user_limit_info l t ip is_tcp b now v) v
step-NoExpiry tag l collect v =
    NoExpiry-transport l _ (collect_users-user_limit_info l.user_online_ip l []) v

run-NoExpiry : (tag : String) (es : List Event) (l : Limiter) → NoExpiry l → NoExpiry (run tag l es)
unfolding run
run-NoExpiry tag [] l v = v
run-NoExpiry tag (e ∷ es) l v = run-NoExpiry tag es (step tag l e) (step-NoExpiry tag l e v)

new_limiter-NoExpiry :
    (tag : String) (users : List UserInfo) (m : Map ℤ ℤ) → NoExpiry (new_limiter tag users m)
unfolding new_limiter load
new_limiter-NoExpiry tag users m = add_users-NoExpiry tag users _ (record { never = λ t u h. cc })

-- In every state that a new limiter reaches, no entry has a dynamic limit or a time at which it
-- runs out, so that a connection leaves the entries of the users as they are.
pub run-new_limiter-NoExpiry :
    (tag : String) (users : List UserInfo) (m : Map ℤ ℤ) (es : List Event)
    → NoExpiry (run tag (new_limiter tag users m) es)
      × ((t ip : String) (is_tcp b : Bool) (now : ℤ)
          → let l = run tag (new_limiter tag users m) es in
            (check_limit l t ip is_tcp b now).state.user_limit_info ≡ l.user_limit_info)
run-new_limiter-NoExpiry tag users m es =
    let v = run-NoExpiry tag es _ (new_limiter-NoExpiry tag users m) in
    (v, λ t ip is_tcp b now. check_limit-user_limit_info _ t ip is_tcp b now v)
