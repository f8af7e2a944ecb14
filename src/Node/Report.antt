-- ===== src/Node/Report.antt =====
-- `reportUserTrafficTask`: what a node tells the panel.
use kknode.Base.{◌^◌, ◌≡◌, refl, ap, ◌∙◌, false, not, List, [], ◌∷◌, ◌++◌, All, filter, arith}
use kknode.Base.Int.{ℤ, pos, ◌*ℤ◌, ◌≤ℤ◌, wrap64, int_eq}
use kknode.Limiter.{get_online_device}
use kknode.Panel.{OnlineUser, UserTraffic, NodeInfo}
use kknode.Panel.Client.{push_body}
use kknode.Users.{get_user_traffic_slice}
use kknode.Users.Traffic.{IsReport, get_user_traffic_slice_lem}
use kknode.Node.{
  Controller, Request, user_traffic, online_users, node_status, nocount_uid, report_min,
  report_user_traffic_task,
}

push_body_lem : (ts : List UserTraffic) → push_body ts ≡ ts
unfolding push_body
push_body_lem [] = refl
push_body_lem (t ∷ ts) = ap (λ r. t ∷ r) (push_body_lem ts)

-- No user with a report is left out.
nocount_uid-false :
    (m : ℤ) (ts : List UserTraffic) (uid : ℤ)
    → pos 0 ≤ℤ wrap64 (m *ℤ pos 1000)
    → All (IsReport m) ts
    → nocount_uid ts uid ≡ false
unfolding nocount_uid
nocount_uid-false m [] uid h a = refl
nocount_uid-false m (t ∷ ts) uid h (a, b) = ground (arith, nocount_uid-false m ts uid h b)

filter-all :
    (ts : List UserTraffic) (os : List OnlineUser)
    → ((uid : ℤ) → nocount_uid ts uid ≡ false)
    → filter (λ u. not (nocount_uid ts u.uid)) os ≡ os
filter-all ts [] h = refl
filter-all ts (o ∷ os) h = rw (h o.uid, filter-all ts os h) refl

report_min-bound :
    (info : NodeInfo)
    → info.traffic_report_threshold ≤ℤ pos (2 ^ 53)
    → pos 0 ≤ℤ wrap64 (report_min info *ℤ pos 1000)
unfolding report_min ◌*ℤ◌ wrap64
report_min-bound info h = ground arith

-- A request for each of the two reports that is not empty, and the status.
pub reports : List UserTraffic → List OnlineUser → List Request
reports traffic online =
    (elim traffic [ [] ↦ [] | t ∷ ts ↦ user_traffic (t ∷ ts) ∷ [] ])
    ++ (elim online [ [] ↦ [] | o ∷ os ↦ online_users (o ∷ os) ∷ [] ])
    ++ node_status ∷ []

-- Whatever the panel's threshold is, up to 2 ^ 53 kilobytes, the task sends the whole report of
-- `GetUserTrafficSlice` and the whole list of `GetOnlineDevice`, each where it is not empty, and
-- the status: the filter on traffic leaves no device out.
pub report_user_traffic_task_lem :
    {H : Type 0} (c : Controller H)
    → c.info.traffic_report_threshold ≤ℤ pos (2 ^ 53)
    → (report_user_traffic_task c).1
      ≡ reports
          (get_user_traffic_slice c.tag (report_min c.info) c.core).1
          (get_online_device c.limiter).1
unfolding report_user_traffic_task reports
report_user_traffic_task_lem {H} c h =
    let m = report_min c.info in
    let bound = report_min-bound c.info h in
    let (v, ts) = get_user_traffic_slice c.tag m c.core in
    let os = (get_online_device c.limiter).1 in
    let none_left =
      λ (uid : ℤ). nocount_uid-false m ts uid bound (get_user_traffic_slice_lem c.tag m c.core).2 in
    all_sent ts os none_left
  where
    all_sent :
        (ts : List UserTraffic) (os : List OnlineUser)
        → ((uid : ℤ) → nocount_uid ts uid ≡ false)
        → (elim ts [ [] ↦ [] | t ∷ ts' ↦ user_traffic (push_body (t ∷ ts')) ∷ [] ])
            ++ (elim os [
              | [] ↦ []
              | o ∷ os' ↦ online_users (filter (λ u. not (nocount_uid ts u.uid)) (o ∷ os')) ∷ []
            ])
            ++ node_status ∷ []
          ≡ reports ts os
    all_sent [] [] h = refl
    all_sent (t ∷ ts) [] h = ap (λ b. user_traffic b ∷ node_status ∷ []) (push_body_lem (t ∷ ts))
    all_sent [] (o ∷ os) h = ap (λ b. online_users b ∷ node_status ∷ []) (filter-all [] (o ∷ os) h)
    all_sent (t ∷ ts) (o ∷ os) h =
        ap
          (λ b.
            user_traffic b
            ∷ online_users (filter (λ u. not (nocount_uid (t ∷ ts) u.uid)) (o ∷ os))
            ∷ node_status
            ∷ [])
          (push_body_lem (t ∷ ts))
        ∙ ap (λ b. user_traffic (t ∷ ts) ∷ online_users b ∷ node_status ∷ [])
            (filter-all (t ∷ ts) (o ∷ os) h)
