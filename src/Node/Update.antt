-- ===== src/Node/Update.antt =====
-- `UpdateUser` of what `compareUserList` finds: the limiter then has the users of the new list.
use kknode.Base.{
  ℕ, String, ◌≡◌, refl, ap, sym, subst, ◌∙◌, inl, inr, true, false, ◌&&◌, List, [], ◌∷◌, Option,
  none, some, All, Member, if◌then◌else◌, arith, Bool-cases,
}
use kknode.Base.Int.{ℤ, pos, int_eq}
use kknode.Base.Eq.{string_eq}
use kknode.Base.Map.{Map, load}
use kknode.Limiter.{Limiter, UserLimitInfo, user_tag, new_user_limit, update_user, new_limiter}
use kknode.Limiter.Users.{last_with, has_uuid, entry_or, update_user-load, new_limiter-load}
use kknode.Panel.{UserInfo}
use kknode.Node.{user_key, compare_user_list, is_empty}
use kknode.Node.Keys.{IsRegular, user_key-injective}
use kknode.Node.Compare.{
  Distinct, has_key, has_key-Member, Member-All, Member-has_key, Member-has_uuid, last_with-Member,
  last_with-cases,
}
use kknode.Node.Deleted.{deleted-from, deleted-to, added-present, added-absent}

abbrev pub entry_speed : Option UserLimitInfo → Option ℤ
entry_speed none = none
entry_speed (some e) = some e.speed_limit

abbrev pub user_speed : Option UserInfo → Option ℤ
user_speed none = none
user_speed (some u) = some u.speed_limit

-- The users with an entry in the limiter are those of the list, each with its speed limit.
abbrev pub Synced : String → List UserInfo → Limiter → Type 0
Synced tag us l =
    (uuid : String)
    → entry_speed (load (user_tag tag uuid) l.user_limit_info) ≡ user_speed (last_with uuid us none)

-- The UUIDs are of one length and none stands twice, and no speed limit is negative.
abbrev pub IsUserList : ℕ → List UserInfo → Type 0
IsUserList n us = All (IsRegular n) us × Distinct us

entry_speed-some :
    (e : Option UserLimitInfo) (u : UserInfo)
    → entry_speed (entry_or e (some u)) ≡ some u.speed_limit
unfolding new_user_limit
entry_speed-some e u = ground (arith, int_eq.beq_iff u.speed_limit (pos 0))

-- A new user whose key an old user has is not deleted.
kept :
    (n : ℕ) (u v : UserInfo) (old new : List UserInfo)
    → Distinct old
    → Member u old
    → Member v new
    → user_key u ≡ user_key v
    → u.uuid ≡ v.uuid
    → has_uuid v.uuid (compare_user_list old new).0 ≡ false
kept n u v old new d mu mv k e = elim (Bool-cases (has_uuid v.uuid (compare_user_list old new).0)) [
  | inr h ↦ h
  | inl h ↦
      let (w, mw, ew, hw) = deleted-from v.uuid old new h in
      let a : last_with v.uuid old none ≡ some u =
        subst (λ x. last_with x old none ≡ some u) e (last_with-Member u old none mu d) in
      let b : last_with v.uuid old none ≡ some w =
        subst (λ x. last_with x old none ≡ some w) ew (last_with-Member w old none mw d) in
      let c : some w ≡ some u = sym b ∙ a in
      let q : w ≡ u = cc in
      let f : has_key (user_key v) new ≡ false =
        subst (λ s. has_key s new ≡ false) (ap user_key q ∙ k) hw in
      let t = Member-has_key v new mv in cc
]

unlisted_key :
    (n : ℕ) (u : UserInfo) (old new : List UserInfo)
    → IsUserList n old
    → IsUserList n new
    → Member u old
    → has_uuid u.uuid new ≡ false
    → has_key (user_key u) new ≡ false
unlisted_key n u old new a b m h = elim (Bool-cases (has_key (user_key u) new)) [
  | inr e ↦ e
  | inl e ↦
      let (v, mv, k) = has_key-Member (user_key u) new e in
      let same =
        user_key-injective n v u (Member-All _ v new mv b.0) (Member-All _ u old m a.0) k in
      let t = subst (λ x. has_uuid x new ≡ true) same.0 (Member-has_uuid v new mv) in cc
]

module _ (n : ℕ) (tag : String) (old new : List UserInfo) (l : Limiter) where
  abbrev gone : List UserInfo
  gone = (compare_user_list old new).0

  abbrev added : List UserInfo
  added = (compare_user_list old new).1

  -- where the new list has the UUID
  update_user-listed :
      (v : UserInfo)
      → IsUserList n old
      → IsUserList n new
      → Synced tag old l
      → Member v new
      → entry_speed (
          entry_or
            (if has_uuid v.uuid gone then none else load (user_tag tag v.uuid) l.user_limit_info)
            (last_with v.uuid added none))
        ≡ some v.speed_limit
  update_user-listed v a b s m = elim (Bool-cases (has_key (user_key v) old)) [
    | inr e ↦ rw (added-present n v old new b.0 b.1 m) (
        rw e (
          entry_speed-some
            (if has_uuid v.uuid gone then none else load (user_tag tag v.uuid) l.user_limit_info)
            v))
    | inl e ↦
        let (u, mu, k) = has_key-Member (user_key v) old e in
        let same =
          user_key-injective n u v (Member-All _ u old mu a.0) (Member-All _ v new m b.0) k in
        let was : last_with v.uuid old none ≡ some u =
          subst (λ x. last_with x old none ≡ some u) same.0 (last_with-Member u old none mu a.1) in
        rw (added-present n v old new b.0 b.1 m) (
          rw (e, kept n u v old new a.1 mu m k same.0)
            (s v.uuid ∙ ap user_speed was ∙ ap some same.1))
  ]

  -- where it does not
  update_user-unlisted :
      (x : String)
      → IsUserList n old
      → IsUserList n new
      → Synced tag old l
      → has_uuid x new ≡ false
      → entry_speed (if has_uuid x gone then none else load (user_tag tag x) l.user_limit_info)
        ≡ none
  update_user-unlisted x a b s h = elim (last_with-cases x old none) [
    | inl (absent, e) ↦ ground (arith, s x, e)
    | inr (u, m, e, q) ↦
        let k = unlisted_key n u old new a b m (subst (λ y. has_uuid y new ≡ false) (sym e) h) in
        let d : has_uuid x gone ≡ true =
          subst (λ y. has_uuid y gone ≡ true) e (deleted-to n u old new a.0 m k) in
        rw d refl
  ]

  pub update_user-Synced :
      IsUserList n old
      → IsUserList n new
      → Synced tag old l
      → Synced tag new (update_user tag added gone l)
  update_user-Synced a b s x = elim (last_with-cases x new none) [
    | inl (absent, e) ↦
        rw (update_user-load tag x added gone l, added-absent x old new absent, e)
          (update_user-unlisted x a b s absent)
    | inr (v, m, e, q) ↦
        rw (update_user-load tag x added gone l, q)
          (subst
            (λ y.
              entry_speed (
                entry_or (if has_uuid y gone then none else load (user_tag tag y) l.user_limit_info)
                  (last_with y added none))
              ≡ some v.speed_limit)
            e (update_user-listed v a b s m))
  ]

-- A limiter that `AddLimiter` has made has the users of its list.
pub new_limiter-Synced :
    (tag : String) (us : List UserInfo) (alive : Map ℤ ℤ) → Synced tag us (new_limiter tag us alive)
new_limiter-Synced tag us alive x =
    rw (new_limiter-load tag x us alive) (elim_entry (last_with x us none))
  where
    elim_entry : (o : Option UserInfo) → entry_speed (entry_or none o) ≡ user_speed o
    elim_entry none = refl
    elim_entry (some u) = entry_speed-some none u

pub update_user-nothing :
    (tag : String) (added deleted : List UserInfo) (l : Limiter)
    → (if is_empty added && is_empty deleted then l else update_user tag added deleted l)
      ≡ update_user tag added deleted l
unfolding update_user
update_user-nothing tag [] [] l = refl
update_user-nothing tag [] (u ∷ us) l = refl
update_user-nothing tag (u ∷ us) deleted l = refl
