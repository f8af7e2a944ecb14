-- ===== src/Users/Removal.antt =====
-- `DelUsers`: what is left of the users that it removes, and of the others.
use kknode.Base.{
  String, ◌≡◌, refl, sym, ◌∙◌, Bool, true, false, ◌||◌, List, [], ◌∷◌, inl, inr, ap, Option, none,
  some, if◌then◌else◌, arith, Option-cases,
}
use kknode.Base.Int.{ℤ}
use kknode.Base.Eq.{string_eq, ◌==◌, beq_refl}
use kknode.Base.Map.{Map, load, delete, load-store, load-delete}
use kknode.Base.Result.{Result, ok, err}
use kknode.Counter.{TrafficStorage, delete_counter}
use kknode.Limiter.{user_tag}
use kknode.Links.{LinkManager}
use kknode.Panel.{UserInfo}
use kknode.Users.{
  Core, CoreError, InboundManager, forget_counter, forget_user, del_each, del_users,
  get_user_manager,
}
use kknode.Users.Traffic.{counters_of, counters_of-none, counters_of-some}

-- What the core has on record of a user: the uid, the bytes at this node and the open links.
abbrev pub RecordOf : Type 0
RecordOf = Option ℤ × Option TrafficStorage × Option LinkManager

abbrev pub gone : RecordOf
gone = (none, none, none)

unfoldable pub record_of : {H : Type 0} → String → String → Core H → RecordOf
record_of tag email v =
    (load email v.uid_map, load email (counters_of tag v), load email v.link_managers)

abbrev pub is_listed : String → String → List UserInfo → Bool
is_listed tag email [] = false
is_listed tag email (u ∷ us) = user_tag tag u.uuid == email || is_listed tag email us

if_same : (b : Bool) → ◌≡◌ {A = Option TrafficStorage} none (if b then none else none)
if_same true = refl
if_same false = refl

nothing_left :
    (user email : String)
    → ◌≡◌ {A = Option TrafficStorage}
        (load email [])
        (if user == email then none else load email [])
unfolding load
nothing_left user email = if_same (user == email)

delete_link_manager :
    (user email : String) (m : Map String LinkManager)
    → load user m ≡ none
    → load email m ≡ (if user == email then none else load email m)
delete_link_manager user email m h = grind (arith, string_eq.beq_iff user email)

forget_counter-load :
    {H : Type 0} (tag user email : String) (v w : Core H)
    → w.counter ≡ forget_counter tag user v.counter
    → load email (counters_of tag w)
      ≡ (if user == email then none else load email (counters_of tag v))
unfolding forget_counter delete_counter
forget_counter-load tag user email v w h = elim (Option-cases (load tag v.counter)) [
  | inl e ↦
      let e' : load tag w.counter ≡ none = rw h (rw (e, forget_counter) e) in
      rw (counters_of-none tag v e, counters_of-none tag w e') (nothing_left user email)
  | inr (c, e) ↦
      let e' : load tag w.counter ≡ some (delete user c) = rw h (
        rw (e, forget_counter)
          (rw (load-store tag tag (delete user c) v.counter, beq_refl tag) refl)) in
      rw (counters_of-some tag v c e, counters_of-some tag w _ e') (load-delete user email c)
]

account_ext :
    {a b : Option ℤ} {c d : Option TrafficStorage} {m n : Option LinkManager}
    → a ≡ b
    → c ≡ d
    → m ≡ n
    → ◌≡◌ {A = RecordOf} (a, c, m) (b, d, n)
account_ext p q r = cc

gone_if :
    (b : Bool) (x : Option ℤ) (y : Option TrafficStorage) (z : Option LinkManager)
    → ◌≡◌ {A = RecordOf}
        ((if b then none else x), (if b then none else y), (if b then none else z))
        (if b then gone else (x, y, z))
gone_if true x y z = refl
gone_if false x y z = refl

listed_step :
    (b c : Bool) (x : RecordOf)
    → (if c then gone else (if b then gone else x)) ≡ (if b || c then gone else x)
listed_step true true x = refl
listed_step true false x = refl
listed_step false c x = refl

module _ (io : InboundManager) where
  open io use {Handlers}

  forget_user-record_of :
      (tag user email : String) (v : Core Handlers)
      → record_of tag email (forget_user io tag user v)
        ≡ (if user == email then gone else record_of tag email v)
  unfolding record_of forget_user
  forget_user-record_of tag user email v = elim (Option-cases (load user v.link_managers)) [
    | inl e ↦
        rw (e, forget_user)
          (account_ext (load-delete user email v.uid_map)
              (forget_counter-load tag user email v _ refl)
              (delete_link_manager user email v.link_managers e)
            ∙ gone_if (user == email) _ _ _)
    | inr (m, e) ↦
        rw (e, forget_user)
          (account_ext (load-delete user email v.uid_map)
              (forget_counter-load tag user email v _ refl) (load-delete user email v.link_managers)
            ∙ gone_if (user == email) _ _ _)
  ]

  del_each-none :
      (tag : String) (u : UserInfo) (us : List UserInfo) (v : Core Handlers)
      → io.remove_user tag (user_tag tag u.uuid) v.handlers ≡ none
      → del_each io tag (u ∷ us) v ≡ (v, err CoreError.remove_failed)
  unfolding del_each
  del_each-none tag u us v e = rw (e, del_each) refl

  del_each-some :
      (tag : String) (u : UserInfo) (us : List UserInfo) (v : Core Handlers) (h : Handlers)
      → io.remove_user tag (user_tag tag u.uuid) v.handlers ≡ some h
      → del_each io tag (u ∷ us) v
        ≡ del_each io tag us (forget_user io tag (user_tag tag u.uuid) (record v { handlers = h }))
  unfolding del_each
  del_each-some tag u us v h e = rw (e, del_each) refl

  del_each-record_of :
      (tag email : String) (us : List UserInfo) (v : Core Handlers)
      → (del_each io tag us v).1 ≡ ok tt
      → record_of tag email (del_each io tag us v).0
        ≡ (if is_listed tag email us then gone else record_of tag email v)
  unfolding del_each record_of counters_of
  del_each-record_of tag email [] v h = refl
  del_each-record_of tag email (u ∷ us) v h =
      let user = user_tag tag u.uuid in
      elim (Option-cases (io.remove_user tag user v.handlers)) [
        | inl e ↦
            let e' = del_each-none tag u us v e in
            let f : err CoreError.remove_failed ≡ ok tt = sym (ap (λ p. p.1) e') ∙ h in cc
        | inr (s, e) ↦
            let v' : Core Handlers = record v { handlers = s } in
            let e' = del_each-some tag u us v s e in
            ap (λ p. record_of tag email p.0) e'
            ∙ del_each-record_of tag email us (forget_user io tag user v')
                (sym (ap (λ p. p.1) e') ∙ h)
            ∙ ap (λ r. if is_listed tag email us then gone else r)
                (forget_user-record_of tag user email v')
            ∙ listed_step (user == email) (is_listed tag email us) (record_of tag email v')
      ]

  -- When `DelUsers` succeeds, each user of the list has no uid, no counters at the node and no open
  -- links on record, and of any other user all three are as before.
  pub del_users-record_of :
      (tag email : String) (us : List UserInfo) (v : Core Handlers)
      → (del_users io us tag v).1 ≡ ok tt
      → record_of tag email (del_users io us tag v).0
        ≡ (if is_listed tag email us then gone else record_of tag email v)
  unfolding del_users
  del_users-record_of tag email us v = go (get_user_manager io tag v) refl
    where
      go :
          (r : Result CoreError (Unit {0}))
          → get_user_manager io tag v ≡ r
          → (del_users io us tag v).1 ≡ ok tt
          → record_of tag email (del_users io us tag v).0
            ≡ (if is_listed tag email us then gone else record_of tag email v)
      go (ok tt) e = rw (e, del_users) (del_each-record_of tag email us v)
      go (err x) e = rw (e, del_users) (λ h. cc)
