-- ===== src/Users.antt =====
-- core/user.go: the users of the running core. The handlers of xray-core are a parameter, with
-- what the code calls of them.
pub mod Accounts
pub mod Traffic
pub mod Removal
use kknode.Base.{
  ℕ, zero, suc, ◌+◌, String, Bool, true, false, not, ◌&&◌, ◌||◌, List, [], ◌∷◌, Option, none, some,
  map, length, if◌then◌else◌,
}
use kknode.Base.Int.{ℤ, pos, ltb_ℤ, eqb_ℤ, ◌+ℤ◌, ◌*ℤ◌, wrap64}
use kknode.Base.Eq.{string_eq, ◌==◌}
use kknode.Base.Map.{Map, load, load_or, store, delete}
use kknode.Base.Result.{Result, ok, err, ◌>>=◌, ◌>>◌}
use kknode.Counter.{TrafficStorage, TrafficCounter, zero_storage, delete_counter}
use kknode.Limiter.{user_tag}
use kknode.Links.{LinkManager, Closed, close_all}
use kknode.Panel.{UserInfo, UserTraffic, NodeInfo, Protocol}
use Accounts.{User, BuildError, build_users}

pub data CoreError : Type 0 where
  no_such_inbound no_get_inbound no_user_manager remove_failed add_failed bad_account : CoreError
  build_failed : BuildError → CoreError

-- What `ihm.GetHandler` gives for a tag: nothing, a handler with no inbound, one whose inbound
-- manages no users, or one whose inbound does.
pub data HandlerKind : Type 0 where
  missing plain unmanaged managed : HandlerKind

-- The inbound handlers of xray-core, with the users that their managers hold. `none` is an error.
pub record InboundManager : Type 1 where
  pub Handlers : Type 0
  pub get_handler : String → Handlers → HandlerKind
  pub remove_user : String → String → Handlers → Option Handlers
  pub to_memory_user : User → Bool
  pub add_user : String → User → Handlers → Option Handlers

-- `XrayCore` and its dispatcher, as far as the users are concerned.
pub record Core (H : Type 0) : Type 0 where
  pub uid_map : Map String ℤ
  pub counter : Map String TrafficCounter
  pub link_managers : Map String LinkManager
  pub closed : Closed
  pub handlers : H

unfoldable pub forget_counter :
    String → String → Map String TrafficCounter → Map String TrafficCounter
forget_counter tag user m = elim (load tag m) [
  | some tc ↦ store tag (delete_counter user tc) m
  | none ↦ m
]

module _ (io : InboundManager) where
  open io use {Handlers}

  unfoldable pub get_user_manager : String → Core Handlers → Result CoreError (Unit {0})
  get_user_manager tag v = elim (io.get_handler tag v.handlers) [
    | missing ↦ err no_such_inbound
    | plain ↦ err no_get_inbound
    | unmanaged ↦ err no_user_manager
    | managed ↦ ok tt
  ]

  -- A removed user loses the uid, the counters of the node and the open links.
  unfoldable pub forget_user : String → String → Core Handlers → Core Handlers
  unfolding forget_counter
  forget_user tag user v =
      let v' : Core Handlers = record v {
        uid_map = delete user v.uid_map;
        counter = forget_counter tag user v.counter;
      } in
      elim (load user v.link_managers) [
        | some lm ↦ record v' {
          closed = (close_all lm v.closed).1;
          link_managers = delete user v.link_managers;
        }
        | none ↦ v'
      ]

  -- The loop of `DelUsers`; an error leaves what was done before it.
  unfoldable pub del_each :
      String → List UserInfo → Core Handlers → Core Handlers × Result CoreError (Unit {0})
  unfolding forget_user
  del_each tag [] v = (v, ok tt)
  del_each tag (u ∷ us) v =
      let user = user_tag tag u.uuid in
      let rest =
        λ (h : Handlers). del_each tag us (forget_user tag user (record v { handlers = h })) in
      elim (io.remove_user tag user v.handlers) [ none ↦ (v, err remove_failed) | some h ↦ rest h ]

  unfoldable pub del_users :
      List UserInfo → String → Core Handlers → Core Handlers × Result CoreError (Unit {0})
  unfolding del_each
  del_users users tag v = elim (get_user_manager tag v) [
    | ok _ ↦ del_each tag users v
    | err e ↦ (v, err e)
  ]

  -- the first loop of `AddUsers`
  pub add_uids : String → List UserInfo → Map String ℤ → Map String ℤ
  add_uids tag [] m = m
  add_uids tag (u ∷ us) m = add_uids tag us (store (user_tag tag u.uuid) u.id m)

  -- the last loop of `AddUsers`
  pub add_each : String → List User → Core Handlers → Core Handlers × Result CoreError (Unit {0})
  add_each tag [] v = (v, ok tt)
  add_each tag (u ∷ us) v =
      let rest = λ (h : Handlers). add_each tag us (record v { handlers = h }) in
      if not (io.to_memory_user u)
      then (v, err bad_account)
      else elim (io.add_user tag u v.handlers) [ none ↦ (v, err add_failed) | some h ↦ rest h ]

  -- `AddUsers`: the users that were added. The uids are on record whatever happens after.
  unfoldable pub add_users :
      String → NodeInfo → List UserInfo → Core Handlers → Core Handlers × Result CoreError ℕ
  unfolding add_uids add_each get_user_manager
  add_users tag info us v =
      let v' = record v { uid_map = add_uids tag us v.uid_map } in
      elim (build_users tag info us) [
        | err e ↦ (v', err (build_failed e))
        | ok users ↦ elim (get_user_manager tag v') [
          | err e ↦ (v', err e)
          | ok _ ↦ let (w, r) = add_each tag users v' in (w, r >>= λ _. ok (length users))
        ]
      ]

-- The traffic of the user is over the threshold.
pub is_due : ℤ → TrafficStorage → Bool
is_due mintraffic ts =
    ltb_ℤ (wrap64 (mintraffic *ℤ pos 1000)) (wrap64 (ts.up_counter +ℤ ts.down_counter))

-- The loop of `GetUserTrafficSlice`: the counters after it, and the report.
pub slice_counters : Map String ℤ → ℤ → TrafficCounter → TrafficCounter × List UserTraffic
unfolding is_due
slice_counters uids mintraffic [] = ([], [])
slice_counters uids mintraffic ((email, ts) ∷ c) =
    let (c', out) = slice_counters uids mintraffic c in
    let uid = load_or (pos 0) email uids in
    if is_due mintraffic ts
    then if eqb_ℤ uid (pos 0) then (c', out) else (
      (email, zero_storage) ∷ c',
      record { uid = uid; upload = ts.up_counter; download = ts.down_counter } ∷ out,
    )
    else ((email, ts) ∷ c', out)

-- An empty report stands for `nil`, too; the error is always `nil`.
unfoldable pub get_user_traffic_slice :
    {H : Type 0} → String → ℤ → Core H → Core H × List UserTraffic
unfolding slice_counters
get_user_traffic_slice tag mintraffic v = elim (load tag v.counter) [
  | none ↦ (v, [])
  | some c ↦
      let (c', out) = slice_counters v.uid_map mintraffic c in
      (record v { counter = store tag c' v.counter }, out)
]
