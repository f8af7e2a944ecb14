-- ===== src/Node.antt =====
-- node/node.go, node/controller.go and node/task.go: the nodes of a server and the two tasks of
-- each. `Controller.limiter` is the object that the registry of limiters holds under the tag.
pub mod Keys
pub mod Compare
pub mod Deleted
pub mod Update
pub mod Sync
pub mod Rounds
pub mod Report
use kknode.Base.{
  ℕ, zero, suc, ◌+◌, String, Bool, true, false, not, ◌&&◌, ◌||◌, List, [], ◌∷◌, ◌++◌, Option, none,
  some, map, filter, get_elem?, is_some, if◌then◌else◌,
}
use kknode.Base.Int.{ℤ, pos, leb_ℤ, ltb_ℤ, ◌+ℤ◌, wrap64, int_eq}
use kknode.Base.Eq.{string_eq, ◌==◌}
use kknode.Base.Map.{Map, load, store, delete}
use kknode.Base.Result.{Result, ok, err}
use kknode.Base.Text.{concat, itoa}
use kknode.Limiter.{Limiter, update_user, get_online_device}
use kknode.Panel.{UserInfo, OnlineUser, UserTraffic, NodeInfo, Protocol, Data}
use kknode.Panel.Client.{Reply, ClientError, get_user_list, get_user_alive, push_body}
use kknode.Users.{Core, CoreError, InboundManager, del_users, add_users, get_user_traffic_slice}

-- what `compareUserList` compares of a user
pub user_key : UserInfo → String
user_key u = concat (u.uuid ∷ itoa u.speed_limit ∷ [])

-- the first loop of `compareUserList`
pub index_users : ℕ → List UserInfo → Map String ℕ → Map String ℕ
index_users i [] m = m
index_users i (u ∷ us) m = index_users (suc i) us (store (user_key u) i m)

-- the second loop: what is left of the index, and the added users
pub scan_new : List UserInfo → Map String ℕ → Map String ℕ × List UserInfo
scan_new [] m = (m, [])
scan_new (u ∷ us) m =
    let here = scan_new us m in
    let gone = scan_new us (delete (user_key u) m) in
    if is_some (load (user_key u) m) then gone else (here.0, u ∷ here.1)

-- the third loop, over the index; every position in it is in range
pub pick : List UserInfo → Map String ℕ → List UserInfo
pick old [] = []
pick old ((k, i) ∷ m) = elim (get_elem? old i) [ none ↦ pick old m | some u ↦ u ∷ pick old m ]

-- the deleted and the added users
unfoldable pub compare_user_list : List UserInfo → List UserInfo → List UserInfo × List UserInfo
unfolding index_users scan_new pick
compare_user_list old new =
    let (m, added) = scan_new new (index_users 0 old []) in (pick old m, added)

pub record Controller (H : Type 0) : Type 0 where
  pub core : Core H
  pub user_etag : String
  pub tag : String
  pub limiter : Limiter
  pub user_list : List UserInfo
  pub info : NodeInfo

abbrev is_empty : List UserInfo → Bool
is_empty [] = true
is_empty (u ∷ us) = false

module _ (io : InboundManager) where
  open io use {Handlers}

  -- The calls of the core, each only for a list that is not empty. `true` where none failed.
  unfoldable pub sync_core :
      String → NodeInfo → List UserInfo → List UserInfo → Core Handlers → Core Handlers × Bool
  sync_core tag info deleted added core =
      let (v, r) = if is_empty deleted then (core, ok tt) else del_users io deleted tag core in
      elim r [
        | err _ ↦ (v, false)
        | ok _ ↦ if is_empty added then (v, true) else (
          (add_users io tag info added v).0,
          (elim (add_users io tag info added v).1 [ err _ ↦ false | ok _ ↦ true ]),
        )
      ]

  -- the part of `userListMonitor` that a list reaches
  pub apply_user_list : Controller Handlers → List UserInfo → Controller Handlers
  unfolding sync_core
  apply_user_list c new =
      let (deleted, added) = compare_user_list c.user_list new in
      let (v, done) = sync_core c.tag c.info deleted added c.core in
      if not done then record c { core = v } else record c {
        core = v;
        limiter =
            if is_empty added && is_empty deleted
            then c.limiter
            else update_user c.tag added deleted c.limiter;
        user_list = new;
      }

  -- `userListMonitor`, which always returns `nil`
  unfoldable pub user_list_monitor : Option Reply → Controller Handlers → Controller Handlers
  unfolding apply_user_list
  user_list_monitor reply c =
      let (etag, r) = get_user_list reply c.user_etag in
      let c' : Controller Handlers = record c { user_etag = etag } in
      elim r [
        | err _ ↦ c'
        | ok new ↦
            let c'' : Controller Handlers = record c' {
              limiter = record c.limiter { alive_list = get_user_alive };
            } in
            elim new [ none ↦ c'' | some us ↦ apply_user_list c'' us ]
      ]

-- What a node sends to the panel.
pub data Request : Type 0 where
  user_traffic : List UserTraffic → Request
  online_users : List OnlineUser → Request
  node_status : Request

-- The users whose reported traffic comes to nothing.
pub nocount_uid : List UserTraffic → ℤ → Bool
nocount_uid [] uid = false
nocount_uid (t ∷ ts) uid =
    (leb_ℤ (wrap64 (t.upload +ℤ t.download)) (pos 0) && t.uid == uid) || nocount_uid ts uid

-- The threshold that `reportUserTrafficTask` passes on.
pub report_min : NodeInfo → ℤ
report_min info =
    if ltb_ℤ (pos 0) info.traffic_report_threshold then info.traffic_report_threshold else pos 0

-- `reportUserTrafficTask`: the requests it makes, in order. What the panel answers is only logged.
unfoldable pub report_user_traffic_task : {H : Type 0} → Controller H → Controller H × List Request
unfolding report_min nocount_uid
report_user_traffic_task c =
    let (v, traffic) = get_user_traffic_slice c.tag (report_min c.info) c.core in
    let (l, online) = get_online_device c.limiter in
    let first : List Request = elim traffic [
      | [] ↦ []
      | t ∷ ts ↦ user_traffic (push_body (t ∷ ts)) ∷ []
    ] in
    let second : List Request = elim online [
      | [] ↦ []
      | o ∷ os ↦ online_users (filter (λ u. not (nocount_uid traffic u.uid)) (o ∷ os)) ∷ []
    ] in
    (record c { core = v; limiter = l }, first ++ second ++ node_status ∷ [])

-- the first `switch` of `startTasks`
pub task_security : NodeInfo → String
task_security info =
    let t = info.node_type in
    if t == "vless" || t == "vmess" || t == "trojan"
    then info.protocol.security
    else if t == "shadowsocks"
    then ""
    else if t == "tuic" || t == "hysteria" || t == "hysteria2"
    then "tls"
    else ""

-- `startTasks` starts the renewal of the certificate, too.
unfoldable pub renews_cert : NodeInfo → Bool
unfolding task_security
renews_cert info =
    let mode = info.protocol.cert_mode in
    task_security info == "tls"
    && not (mode == "none" || mode == "" || mode == "file" || mode == "self")

unfoldable pub build_node_tag : String → NodeInfo → String
build_node_tag api_host node =
    concat ("[" ∷ api_host ∷ "]-" ∷ node.node_type ∷ ":" ∷ itoa node.id ∷ [])

-- An interval of the panel, one minute where it is not positive.
pub interval_or_default : ℤ → ℤ
interval_or_default interval = if leb_ℤ interval (pos 0) then pos 60 else interval

-- The `NodeInfo` of each protocol that `New` makes a controller for. No protocols is a panic.
unfoldable pub node_infos : ℤ → Data → Option (List NodeInfo)
unfolding interval_or_default
node_infos server_id d = elim d.protocols [
  | none ↦ none
  | some ps ↦ some (
      map
        (λ p. record {
          id = server_id;
          node_type = p.node_type;
          push_interval = interval_or_default d.push_interval;
          pull_interval = interval_or_default d.pull_interval;
          traffic_report_threshold = d.traffic_report_threshold;
          protocol = p;
        })
        ps)
]
