-- ===== src/Node/Sync.antt =====
-- `userListMonitor`: the limiter follows the list of users.
use kknode.Base.{
  ℕ, ◌≡◌, refl, ap, sym, subst, ◌⊎◌, inl, inr, Bool, true, false, List, Option, none, some,
  Bool-cases,
}
use kknode.Base.Int.{int_eq}
use kknode.Base.Eq.{string_eq}
use kknode.Base.Result.{Result, ok, err}
use kknode.Panel.{UserInfo}
use kknode.Panel.Client.{Reply, ClientError, get_user_list, get_user_alive}
use kknode.Users.{InboundManager}
use kknode.Node.{Controller, compare_user_list, sync_core, apply_user_list, user_list_monitor}
use kknode.Node.Update.{IsUserList, Synced, update_user-Synced, update_user-nothing}

module _ (io : InboundManager) (n : ℕ) where
  open io use {Handlers}

  -- what the core does for a new list
  abbrev pub core_synced : Controller Handlers → List UserInfo → Bool
  core_synced c new =
      let (deleted, added) = compare_user_list c.user_list new in
      (sync_core io c.tag c.info deleted added c.core).1

  apply_user_list-done :
      (c : Controller Handlers) (new : List UserInfo)
      → IsUserList n c.user_list
      → IsUserList n new
      → Synced c.tag c.user_list c.limiter
      → core_synced c new ≡ true
      → let c' = apply_user_list io c new in
        (c'.tag ≡ c.tag) × (c'.user_list ≡ new) × Synced c.tag new c'.limiter
  unfolding apply_user_list
  apply_user_list-done c new a b s e =
      let (d, ad) = compare_user_list c.user_list new in
      rw (e, apply_user_list)
        (
          refl,
          refl,
          subst (Synced c.tag new) (sym (update_user-nothing c.tag ad d c.limiter))
              (update_user-Synced n c.tag c.user_list new c.limiter a b s),
        )

  apply_user_list-failed :
      (c : Controller Handlers) (new : List UserInfo)
      → core_synced c new ≡ false
      → let c' = apply_user_list io c new in
        (c'.tag ≡ c.tag) × (c'.user_list ≡ c.user_list) × (c'.limiter ≡ c.limiter)
  unfolding apply_user_list
  apply_user_list-failed c new e = rw (e, apply_user_list) (refl, refl, refl)

  -- The tag stays, and the list and the limiter are those of the new list or as they were.
  pub Follows :
      Controller Handlers
      → Result ClientError (Option (List UserInfo))
      → Controller Handlers
      → Type 0
  Follows c r c' =
      (c'.tag ≡ c.tag)
      × (((us : List UserInfo) × (r ≡ ok (some us))
            × (core_synced c us ≡ true)
            × (c'.user_list ≡ us)
            × Synced c.tag us c'.limiter)
          ⊎ ((c'.user_list ≡ c.user_list)
              × (c'.limiter.user_limit_info ≡ c.limiter.user_limit_info)
              × ((us : List UserInfo) → r ≡ ok (some us) → core_synced c us ≡ false)))

  ok_some :
      (c : Controller Handlers) (us vs : List UserInfo)
      → ◌≡◌ {A = Result ClientError (Option (List UserInfo))} (ok (some us)) (ok (some vs))
      → core_synced c us ≡ false
      → core_synced c vs ≡ false
  ok_some c us vs h f = let e : us ≡ vs = cc in subst (λ ws. core_synced c ws ≡ false) e f

  -- `userListMonitor` keeps the tag. Where the panel sends a list that is not empty, and the core
  -- takes the changes, the controller's list is the new one, and the limiter has an entry for
  -- exactly its users, each with the speed limit that is listed for it. In every other case the
  -- list and the entries stay. This is where, in both lists, UUIDs are of one length, none stands
  -- twice and no speed limit is negative, and the limiter has the users of the old list.
  pub user_list_monitor-Follows :
      (c : Controller Handlers) (reply : Option Reply)
      → IsUserList n c.user_list
      → ((us : List UserInfo)
          → (get_user_list reply c.user_etag).1 ≡ ok (some us)
          → IsUserList n us)
      → Synced c.tag c.user_list c.limiter
      → Follows c (get_user_list reply c.user_etag).1 (user_list_monitor io reply c)
  unfolding Follows user_list_monitor
  user_list_monitor-Follows c reply a b s = go (get_user_list reply c.user_etag).1 refl
    where
      go :
          (r : Result ClientError (Option (List UserInfo)))
          → (get_user_list reply c.user_etag).1 ≡ r
          → Follows c (get_user_list reply c.user_etag).1 (user_list_monitor io reply c)
      go (err x) e = rw (e, user_list_monitor) (refl, inr (refl, refl, λ us h. cc))
      go (ok none) e = rw (e, user_list_monitor) (refl, inr (refl, refl, λ us h. cc))
      go (ok (some us)) e =
          let c' : Controller Handlers = record c {
            user_etag = (get_user_list reply c.user_etag).0;
            limiter = record c.limiter { alive_list = get_user_alive };
          } in
          elim (Bool-cases (core_synced c us)) [
            | inl done ↦
                let (t, l, sy) = apply_user_list-done c' us a (b us e) s done in
                rw (e, user_list_monitor) (t, inl (us, refl, done, l, sy))
            | inr failed ↦
                let (t, l, m) = apply_user_list-failed c' us failed in
                rw (e, user_list_monitor)
                  (t, inr (l, ap (λ x. x.user_limit_info) m, λ vs h. ok_some c us vs h failed))
          ]
