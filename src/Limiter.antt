-- ===== src/Limiter.antt =====
-- limiter/limiter.go, limiter/dynamic.go and common/format/user.go: the limits of the users of one
-- node. A token bucket of the package `ratelimit` is known by the arguments it is made with.
pub mod Access
pub mod Speed
pub mod Check
pub mod Users
pub mod Expiry
pub mod Online
pub mod Period
use kknode.Base.{
  String, Bool, true, false, not, ◌&&◌, ◌||◌, List, [], ◌∷◌, ◌++◌, Option, none, some,
  if◌then◌else◌,
}
use kknode.Base.Int.{ℤ, pos, ltb_ℤ, leb_ℤ, eqb_ℤ, wrap64, ◌*ℤ◌, quot, int_eq}
use kknode.Base.Eq.{string_eq}
use kknode.Base.Map.{Map, load, load_or, store, delete}
use kknode.Base.Text.{concat, trim_prefix}
use kknode.Panel.{UserInfo, OnlineUser}

unfoldable pub user_tag : String → String → String
user_tag tag uuid = concat (tag ∷ "|" ∷ uuid ∷ [])

-- the smaller of two rates, where 0 stands for no limit
unfoldable pub determine_speed_limit : ℤ → ℤ → ℤ
determine_speed_limit limit1 limit2 =
    if eqb_ℤ limit1 (pos 0) || eqb_ℤ limit2 (pos 0)
    then if ltb_ℤ limit2 limit1 then limit1 else if ltb_ℤ limit1 limit2 then limit2 else pos 0
    else if ltb_ℤ limit2 limit1
    then limit2
    else if ltb_ℤ limit1 limit2
    then limit1
    else limit1

pub record UserLimitInfo : Type 0 where
  pub uid : ℤ
  pub speed_limit : ℤ
  pub device_limit : ℤ
  pub dynamic_speed_limit : ℤ
  pub expire_time : ℤ
  pub over_limit : Bool

-- `ratelimit.NewBucketWithQuantum(time.Second, capacity, quantum)`
pub record Bucket : Type 0 where
  pub capacity : ℤ
  pub quantum : ℤ

pub record Limiter : Type 0 where
  pub speed_limit : ℤ
  pub user_online_ip : Map String (Map String ℤ)
  pub old_user_online : Map String ℤ
  pub uuid_to_uid : Map String ℤ
  pub user_limit_info : Map String UserLimitInfo
  pub speed_limiter : Map String Bucket
  pub alive_list : Map ℤ ℤ

-- The entry that `AddLimiter` and `UpdateUser` make for a user.
unfoldable pub new_user_limit : UserInfo → UserLimitInfo
new_user_limit u = record {
  uid = u.id;
  speed_limit = if not (eqb_ℤ u.speed_limit (pos 0)) then u.speed_limit else pos 0;
  device_limit = if not (eqb_ℤ u.device_limit (pos 0)) then u.device_limit else pos 0;
  dynamic_speed_limit = pos 0;
  expire_time = pos 0;
  over_limit = false;
}

-- one round of the loops over the users that come in
unfoldable pub add_user : String → Limiter → UserInfo → Limiter
unfolding new_user_limit
add_user tag l u = record l {
  user_limit_info = store (user_tag tag u.uuid) (new_user_limit u) l.user_limit_info;
  uuid_to_uid = store u.uuid u.id l.uuid_to_uid;
}

unfoldable pub add_users : String → List UserInfo → Limiter → Limiter
unfolding add_user
add_users tag [] l = l
add_users tag (u ∷ us) l = add_users tag us (add_user tag l u)

-- The registry `limiter`, by tag.
abbrev pub Registry : Type 0
Registry = Map String Limiter

-- `AddLimiter`: the limiter that is made.
unfoldable pub new_limiter : String → List UserInfo → Map ℤ ℤ → Limiter
unfolding add_users
new_limiter tag users alive = add_users tag users (record {
  speed_limit = pos 0;
  user_online_ip = [];
  old_user_online = [];
  uuid_to_uid = [];
  user_limit_info = [];
  speed_limiter = [];
  alive_list = alive;
})

unfoldable pub add_limiter : String → List UserInfo → Map ℤ ℤ → Registry → Registry × Limiter
add_limiter tag users alive reg =
    let info = new_limiter tag users alive in (store tag info reg, info)

unfoldable pub get_limiter : String → Registry → Option Limiter
get_limiter tag reg = load tag reg

unfoldable pub delete_limiter : String → Registry → Registry
delete_limiter tag reg = delete tag reg

-- one round of the loop over the users that go
unfoldable pub delete_user : String → Limiter → UserInfo → Limiter
delete_user tag l u = record l {
  user_limit_info = delete (user_tag tag u.uuid) l.user_limit_info;
  user_online_ip = delete (user_tag tag u.uuid) l.user_online_ip;
  speed_limiter = delete (user_tag tag u.uuid) l.speed_limiter;
  uuid_to_uid = delete u.uuid l.uuid_to_uid;
  alive_list = delete u.id l.alive_list;
}

unfoldable pub delete_users : String → List UserInfo → Limiter → Limiter
unfolding delete_user
delete_users tag [] l = l
delete_users tag (u ∷ us) l = delete_users tag us (delete_user tag l u)

unfoldable pub update_user : String → List UserInfo → List UserInfo → Limiter → Limiter
unfolding add_users delete_users
update_user tag added deleted l = add_users tag added (delete_users tag deleted l)

-- the inner loop of `GetOnlineDevice`, over the addresses of one user
unfoldable pub collect_ips :
    Map String ℤ → Map String ℤ → List OnlineUser → Map String ℤ × List OnlineUser
collect_ips [] old out = (old, out)
collect_ips ((ip, uid) ∷ ips) old out =
    collect_ips ips (store ip uid old) (out ++ record { uid = uid; ip = ip } ∷ [])

-- the outer loop; each user's entry goes once its addresses are collected
unfoldable pub collect_users :
    Map String (Map String ℤ) → Limiter → List OnlineUser → Limiter × List OnlineUser
unfolding collect_ips
collect_users [] l out = (l, out)
collect_users ((taguuid, ips) ∷ users) l out =
    let (old, out') = collect_ips ips l.old_user_online out in
    collect_users users
      (record l { old_user_online = old; user_online_ip = delete taguuid l.user_online_ip }) out'

unfoldable pub get_online_device : Limiter → Limiter × List OnlineUser
unfolding collect_users
get_online_device l = collect_users l.user_online_ip l []
