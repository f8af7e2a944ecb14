-- ===== src/Node/Rounds.antt =====
-- What a round of `userListMonitor` does not do: enforce device limits, and take in an empty list.
use kknode.Base.{
  String, ◌≡◌, refl, ap, ◌∙◌, Bool, false, ◌&&◌, List, [], ◌∷◌, Option, none, some, if-elim,
  Bool-cases, inl, inr, arith, ◌≢◌, ◌<◌,
}
use kknode.Base.Int.{ℤ, int_eq}
use kknode.Base.Eq.{string_eq}
use kknode.Base.Map.{load, load_or, delete}
use kknode.Base.Result.{ok}
use kknode.Base.Text.{trim_prefix}
use kknode.Limiter.{
  Limiter, UserLimitInfo, add_user, add_users, delete_user, delete_users, update_user,
}
use kknode.Limiter.Access.{is_full, check_limit}
use kknode.Limiter.Check.{must_reject, check_limit-reject}
use kknode.Panel.{UserInfo}
use kknode.Panel.Client.{Reply, get_user_list, get_user_alive}
use kknode.Users.{InboundManager}
use kknode.Node.{
  Controller, compare_user_list, is_empty, sync_core, apply_user_list, user_list_monitor,
}

abbrev NoneAlive : Limiter → Type 0
NoneAlive l = l.alive_list ≡ []

add_users-alive_list :
    (tag : String) (us : List UserInfo) (l : Limiter) → NoneAlive l → NoneAlive (add_users tag us l)
unfolding add_users add_user
add_users-alive_list tag [] l h = h
add_users-alive_list tag (u ∷ us) l h = add_users-alive_list tag us (add_user tag l u) h

delete_users-alive_list :
    (tag : String) (us : List UserInfo) (l : Limiter)
    → NoneAlive l
    → NoneAlive (delete_users tag us l)
unfolding delete_users delete_user delete
delete_users-alive_list tag [] l h = h
delete_users-alive_list tag (u ∷ us) l h =
    delete_users-alive_list tag us (delete_user tag l u) (ap (delete u.id) h)

update_user-alive_list :
    (tag : String) (added gone : List UserInfo) (l : Limiter)
    → NoneAlive l
    → NoneAlive (update_user tag added gone l)
unfolding update_user
update_user-alive_list tag added gone l h =
    add_users-alive_list tag added (delete_users tag gone l) (delete_users-alive_list tag gone l h)

NoneAlive-must_reject :
    (l : Limiter) (taguuid ip : String) (b : Bool) (u : UserLimitInfo)
    → NoneAlive l
    → load taguuid l.user_limit_info ≡ some u
    → must_reject l taguuid ip b ≡ false
unfolding must_reject is_full load_or
NoneAlive-must_reject l taguuid ip b u h e = rw (e, must_reject, h) (ground arith)

get_user_list-empty :
    (r : Reply) (etag : String)
    → r.status < 400
    → r.status ≢ 304
    → r.failed ≡ false
    → r.users ≡ some []
    → get_user_list (some r) etag ≡ (r.etag, ok none)
unfolding get_user_list
get_user_list-empty r etag a b f e = ground arith

module _ (io : InboundManager) where
  open io use {Handlers}

  apply_user_list-alive_list :
      (c : Controller Handlers) (new : List UserInfo)
      → NoneAlive c.limiter
      → NoneAlive (apply_user_list io c new).limiter
  unfolding apply_user_list
  apply_user_list-alive_list c new h =
      let (d, a) = compare_user_list c.user_list new in
      elim (Bool-cases (sync_core io c.tag c.info d a c.core).1) [
        | inr e ↦ rw (e, apply_user_list) h
        | inl e ↦
            rw (e, apply_user_list)
              (if-elim NoneAlive (is_empty a && is_empty d) c.limiter
                (update_user c.tag a d c.limiter) (λ _. h)
                (λ _. update_user-alive_list c.tag a d c.limiter h))
      ]

  -- After a round in which the panel was reached, `CheckLimit` rejects no connection of a user with
  -- an entry, whatever the user's device limit and the addresses that are online.
  pub user_list_monitor-no_rejection :
      (c : Controller Handlers) (reply : Option Reply) (new : Option (List UserInfo))
      (taguuid ip : String) (is_tcp no_ss_udp : Bool) (now : ℤ) (u : UserLimitInfo)
      → (get_user_list reply c.user_etag).1 ≡ ok new
      → let l = (user_list_monitor io reply c).limiter in
        load taguuid l.user_limit_info ≡ some u
        → (check_limit l taguuid ip is_tcp no_ss_udp now).reject ≡ false
  unfolding user_list_monitor get_user_alive
  user_list_monitor-no_rejection c reply new taguuid ip is_tcp no_ss_udp now u e h =
      let l = (user_list_monitor io reply c).limiter in
      check_limit-reject l taguuid ip is_tcp no_ss_udp now
      ∙ NoneAlive-must_reject l taguuid (trim_prefix ip "::ffff:") no_ss_udp u (alive new e) h
    where
      alive :
          (new : Option (List UserInfo))
          → (get_user_list reply c.user_etag).1 ≡ ok new
          → NoneAlive (user_list_monitor io reply c).limiter
      alive none e = rw (e, user_list_monitor) refl
      alive (some us) e = rw (e, user_list_monitor) (apply_user_list-alive_list _ us refl)

  -- Where the panel answers with an empty list of users, the round removes no user: the list of the
  -- controller, the entries of the limiter and the core stay as they were.
  pub user_list_monitor-empty :
      (c : Controller Handlers) (r : Reply)
      → r.status < 400
      → r.status ≢ 304
      → r.failed ≡ false
      → r.users ≡ some []
      → let c' = user_list_monitor io (some r) c in
        (c'.user_list ≡ c.user_list)
        × (c'.limiter.user_limit_info ≡ c.limiter.user_limit_info)
        × (c'.core ≡ c.core)
  unfolding user_list_monitor
  user_list_monitor-empty c r a b f e =
      rw (get_user_list-empty r c.user_etag a b f e, user_list_monitor) (refl, refl, refl)
