-- ===== src/Limiter/Users.antt =====
-- Which users have an entry after `AddLimiter` and `UpdateUser`, and which limits it holds.
use text.Mathlib.TextLemmas.{append_cancel_left}
use kknode.Base.{
  String, ◌≡◌, refl, Bool, false, ◌||◌, Option, none, some, List, [], ◌∷◌, arith, if◌then◌else◌,
}
use kknode.Base.Int.{ℤ}
use kknode.Base.Eq.{string_eq, ◌==◌}
use kknode.Base.Map.{Map, load, load-store, load-delete}
use kknode.Panel.{UserInfo}
use kknode.Limiter.{
  Limiter, UserLimitInfo, user_tag, new_user_limit, add_user, add_users, delete_user, delete_users,
  update_user, new_limiter,
}

-- Tags of one node are equal for equal users only.
pub user_tag-beq : (tag a b : String) → (user_tag tag a == user_tag tag b) ≡ (a == b)
unfolding user_tag
user_tag-beq tag a b = ground (
  arith,
  string_eq.beq_iff (user_tag tag a) (user_tag tag b),
  string_eq.beq_iff a b,
  λ (h : user_tag tag a ≡ user_tag tag b).
      append_cancel_left "|" a b (append_cancel_left tag _ _ h),
)

-- The last user of a list with a UUID, or else the one given.
unfoldable pub last_with : String → List UserInfo → Option UserInfo → Option UserInfo
last_with uuid [] found = found
last_with uuid (u ∷ us) found = last_with uuid us (if u.uuid == uuid then some u else found)

unfoldable pub has_uuid : String → List UserInfo → Bool
has_uuid uuid [] = false
has_uuid uuid (u ∷ us) = u.uuid == uuid || has_uuid uuid us

abbrev pub entry_or : Option UserLimitInfo → Option UserInfo → Option UserLimitInfo
entry_or old none = old
entry_or old (some u) = some (new_user_limit u)

add_users-load :
    (tag uuid : String) (us : List UserInfo) (l : Limiter) (old : Option UserLimitInfo)
    (found : Option UserInfo)
    → load (user_tag tag uuid) l.user_limit_info ≡ entry_or old found
    → load (user_tag tag uuid) (add_users tag us l).user_limit_info
      ≡ entry_or old (last_with uuid us found)
unfolding add_users last_with
add_users-load tag uuid [] l old found h = h
add_users-load tag uuid (u ∷ us) l old found h =
    add_users-load tag uuid us (add_user tag l u) old (if u.uuid == uuid then some u else found) (
      grind (
        arith,
        load-store (user_tag tag u.uuid) (user_tag tag uuid) (new_user_limit u) l.user_limit_info,
        user_tag-beq tag u.uuid uuid,
      ))

delete_users-load :
    (tag uuid : String) (us : List UserInfo) (l : Limiter)
    → load (user_tag tag uuid) (delete_users tag us l).user_limit_info
      ≡ (if has_uuid uuid us then none else load (user_tag tag uuid) l.user_limit_info)
unfolding delete_users has_uuid
delete_users-load tag uuid [] l = refl
delete_users-load tag uuid (u ∷ us) l = ground (
  arith,
  delete_users-load tag uuid us (delete_user tag l u),
  load-delete (user_tag tag u.uuid) (user_tag tag uuid) l.user_limit_info,
  user_tag-beq tag u.uuid uuid,
)

-- After `UpdateUser` the entry of a UUID is that of the last added user with it; without one it is
-- gone if a deleted user has it, and as before if not.
pub update_user-load :
    (tag uuid : String) (added deleted : List UserInfo) (l : Limiter)
    → load (user_tag tag uuid) (update_user tag added deleted l).user_limit_info
      ≡ entry_or
          (if has_uuid uuid deleted then none else load (user_tag tag uuid) l.user_limit_info)
          (last_with uuid added none)
unfolding update_user
update_user-load tag uuid added deleted l =
    add_users-load tag uuid added (delete_users tag deleted l) _ none
      (delete_users-load tag uuid deleted l)

-- A new limiter has exactly the listed users, each with the limits of its last occurrence.
pub new_limiter-load :
    (tag uuid : String) (users : List UserInfo) (alive : Map ℤ ℤ)
    → load (user_tag tag uuid) (new_limiter tag users alive).user_limit_info
      ≡ entry_or none (last_with uuid users none)
unfolding new_limiter load
new_limiter-load tag uuid users alive = add_users-load tag uuid users _ none none refl

add_users-uid :
    (tag uuid : String) (us : List UserInfo) (l : Limiter) (old : Option ℤ)
    (found : Option UserInfo)
    → load uuid l.uuid_to_uid ≡ (elim found [ none ↦ old | some u ↦ some u.id ])
    → load uuid (add_users tag us l).uuid_to_uid
      ≡ (elim (last_with uuid us found) [ none ↦ old | some u ↦ some u.id ])
unfolding add_users last_with
add_users-uid tag uuid [] l old found h = h
add_users-uid tag uuid (u ∷ us) l old found h =
    add_users-uid tag uuid us (add_user tag l u) old (if u.uuid == uuid then some u else found)
      (ground (arith, load-store u.uuid uuid u.id l.uuid_to_uid))

delete_users-uid :
    (tag uuid : String) (us : List UserInfo) (l : Limiter)
    → load uuid (delete_users tag us l).uuid_to_uid
      ≡ (if has_uuid uuid us then none else load uuid l.uuid_to_uid)
unfolding delete_users has_uuid
delete_users-uid tag uuid [] l = refl
delete_users-uid tag uuid (u ∷ us) l = ground (
  arith,
  delete_users-uid tag uuid us (delete_user tag l u),
  load-delete u.uuid uuid l.uuid_to_uid,
)

-- The two tables of users agree on every UUID of the node's tag.
pub record IsConsistent (tag : String) (l : Limiter) : Type 0 where
  pub agree :
      (uuid : String)
      → load uuid l.uuid_to_uid
        ≡ (elim (load (user_tag tag uuid) l.user_limit_info) [ none ↦ none | some u ↦ some u.uid ])

-- `UpdateUser` keeps the tables by UUID and by tag in agreement.
pub update_user-IsConsistent :
    (tag : String) (added deleted : List UserInfo) (l : Limiter)
    → IsConsistent tag l
    → IsConsistent tag (update_user tag added deleted l)
unfolding update_user new_user_limit
update_user-IsConsistent tag added deleted l c = record {
  agree = λ uuid. ground (
    arith,
    c.agree uuid,
    add_users-uid tag uuid added (delete_users tag deleted l) _ none
        (delete_users-uid tag uuid deleted l),
    add_users-load tag uuid added (delete_users tag deleted l) _ none
        (delete_users-load tag uuid deleted l),
  );
}
