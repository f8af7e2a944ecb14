-- ===== src/Tests/Nodes.antt =====
-- Runs of node/task.go.
use Prim.Native.String
use kknode.Base.{
  ℕ, ◌<◌, ◌^◌, String, ◌≡◌, refl, subst, false, true, none, List, [], ◌∷◌, Option, some, arith,
}
use kknode.Base.Int.{pos}
use kknode.Base.Eq.{string_eq}
use kknode.Base.Map.{load, store, delete}
use kknode.Base.Result.{ok}
use kknode.Limiter.{new_limiter, user_tag, new_user_limit, add_users, add_user, get_online_device}
use kknode.Limiter.Access.{check_limit}
use kknode.Limiter.Users.{has_uuid, last_with}
use kknode.Panel.{UserInfo}
use kknode.Panel.Client.{Reply, get_user_list}
use kknode.Users.{get_user_traffic_slice}
use kknode.Node.{Controller, user_list_monitor, report_user_traffic_task, report_min}
use kknode.Node.Keys.{IsRegular}
use kknode.Node.Update.{IsUserList, new_limiter-Synced}
use kknode.Node.Sync.{Follows, user_list_monitor-Follows}
use kknode.Node.Rounds.{user_list_monitor-no_rejection, user_list_monitor-empty}
use kknode.Node.Report.{reports, report_user_traffic_task_lem}
use kknode.Tests.Accounting.{open_manager, core, alice, bob, vless_node}

program : Unit {0}
unfolding load store delete new_limiter user_tag new_user_limit has_uuid last_with get_user_list
program = tt

monitor : Unit {0}
unfolding program add_users add_user user_list_monitor
monitor = tt

abbrev controller : Controller (List String)
controller = record {
  core = core;
  user_etag = "";
  tag = "n";
  limiter = new_limiter "n" (alice ∷ bob ∷ []) [];
  user_list = alice ∷ bob ∷ [];
  info = vless_node;
}

abbrev carol : UserInfo
carol = record { id = pos 3; uuid = "c"; speed_limit = pos 7; device_limit = pos 0 }

abbrev reply : Option Reply
reply = some (record { status = 200; failed = false; etag = "v2"; users = some (bob ∷ carol ∷ []) })

regular :
    (u : UserInfo) (s : ℕ)
    → u.speed_limit ≡ pos s
    → s < 2 ^ 63
    → Prim.Native.String.count u.uuid ≡ 1
    → IsRegular 1 u
regular u s e lt c = record { uuid_length = c; speed = s; speed_eq = e; speed_lt = lt }

old-IsUserList : IsUserList 1 (alice ∷ bob ∷ [])
unfolding program
old-IsUserList = (
  (regular alice 10 refl (omega arith) refl, (regular bob 0 refl (omega arith) refl, tt)),
  (refl, (refl, tt)),
)

new-IsUserList : IsUserList 1 (bob ∷ carol ∷ [])
unfolding program
new-IsUserList = (
  (regular bob 0 refl (omega arith) refl, (regular carol 7 refl (omega arith) refl, tt)),
  (refl, (refl, tt)),
)

new-All : (us : List UserInfo) → (get_user_list reply "").1 ≡ ok (some us) → IsUserList 1 us
unfolding program
new-All us h = let e : bob ∷ carol ∷ [] ≡ us = cc in subst (IsUserList 1) e new-IsUserList

user_list_monitor-Follows_example :
    Follows open_manager 1 controller
      (get_user_list reply "").1
      (user_list_monitor open_manager reply controller)
user_list_monitor-Follows_example =
    user_list_monitor-Follows open_manager 1 controller reply old-IsUserList new-All
      (new_limiter-Synced "n" (alice ∷ bob ∷ []) [])

report_user_traffic_task_lem_example :
    (report_user_traffic_task controller).1
    ≡ reports
        (get_user_traffic_slice "n" (report_min vless_node) core).1
        (get_online_device controller.limiter).1
report_user_traffic_task_lem_example = report_user_traffic_task_lem controller (omega arith)

-- Nothing changed since the last answer.
abbrev unchanged : Option Reply
unchanged = some (record { status = 304; failed = false; etag = ""; users = none })

user_list_monitor-no_rejection_example :
    (check_limit
      (user_list_monitor open_manager unchanged controller).limiter
      "n|a"
      "1.1.1.1"
      true
      true
      (pos 0)).reject
    ≡ false
unfolding monitor
user_list_monitor-no_rejection_example =
    user_list_monitor-no_rejection open_manager controller unchanged none "n|a" "1.1.1.1" true true
      (pos 0) (new_user_limit alice) refl refl

abbrev empty_reply : Reply
empty_reply = record { status = 200; failed = false; etag = "v3"; users = some [] }

user_list_monitor-empty_example :
    let c' = user_list_monitor open_manager (some empty_reply) controller in
    (c'.user_list ≡ alice ∷ bob ∷ [])
    × (c'.limiter.user_limit_info ≡ controller.limiter.user_limit_info)
    × (c'.core ≡ core)
user_list_monitor-empty_example =
    user_list_monitor-empty open_manager controller empty_reply (omega arith) (omega arith) refl
      refl
