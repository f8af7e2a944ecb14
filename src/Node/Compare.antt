-- ===== src/Node/Compare.antt =====
-- `compareUserList`: which users it gives as deleted and as added.
use kknode.Base.{
  ℕ, suc, String, ◌≡◌, refl, ap, subst, ◌∙◌, ◌≢◌, ◌⊎◌, inl, inr, Bool, true, false, ◌||◌, List, [],
  ◌∷◌, Option, none, some, All, Member, is_some, if◌then◌else◌, arith, Bool-cases,
}
use kknode.Base.Eq.{string_eq, ◌==◌, beq_refl, beq_ne}
use kknode.Base.Map.{Map, load, store, delete, load-store, load-delete}
use kknode.Limiter.Users.{last_with, has_uuid}
use kknode.Panel.{UserInfo}
use kknode.Node.{user_key, index_users, scan_new}
use kknode.Node.Keys.{IsRegular, user_key-injective}

-- No UUID stands twice in the list.
abbrev pub Distinct : List UserInfo → Type 0
Distinct [] = Unit
Distinct (u ∷ us) = (has_uuid u.uuid us ≡ false) × Distinct us

abbrev pub has_key : String → List UserInfo → Bool
has_key k [] = false
has_key k (u ∷ us) = user_key u == k || has_key k us

pub Member-All :
    (P : UserInfo → Type 0) (u : UserInfo) (us : List UserInfo) → Member u us → All P us → P u
Member-All P u [] h a = absurd h.lower
Member-All P u (v ∷ us) (inl e) a = subst P e a.0
Member-All P u (v ∷ us) (inr m) a = Member-All P u us m a.1

pub Member-has_uuid : (u : UserInfo) (us : List UserInfo) → Member u us → has_uuid u.uuid us ≡ true
unfolding has_uuid
Member-has_uuid u [] h = absurd h.lower
Member-has_uuid u (v ∷ us) (inl e) =
    ground (arith, string_eq.beq_iff v.uuid u.uuid, ap (λ w. w.uuid) e)
Member-has_uuid u (v ∷ us) (inr m) = ground (arith, Member-has_uuid u us m)

pub Member-has_key :
    (u : UserInfo) (us : List UserInfo) → Member u us → has_key (user_key u) us ≡ true
Member-has_key u [] h = absurd h.lower
Member-has_key u (v ∷ us) (inl e) =
    ground (arith, string_eq.beq_iff (user_key v) (user_key u), ap user_key e)
Member-has_key u (v ∷ us) (inr m) = ground (arith, Member-has_key u us m)

pub has_key-Member :
    (k : String) (us : List UserInfo)
    → has_key k us ≡ true
    → (u : UserInfo) × Member u us × (user_key u ≡ k)
has_key-Member k [] h = cc
has_key-Member k (v ∷ us) h = elim (Bool-cases (user_key v == k)) [
  | inl e ↦ (v, inl refl, (string_eq.beq_iff (user_key v) k).0 e)
  | inr e ↦ let (u, m, q) = has_key-Member k us (ground arith) in (u, inr m, q)
]

pub last_with-absent :
    (x : String) (us : List UserInfo) (f : Option UserInfo)
    → has_uuid x us ≡ false
    → last_with x us f ≡ f
unfolding last_with has_uuid
last_with-absent x [] f h = refl
last_with-absent x (u ∷ us) f h = ground (arith, last_with-absent x us f)

pub last_with-Member :
    (u : UserInfo) (us : List UserInfo) (f : Option UserInfo)
    → Member u us
    → Distinct us
    → last_with u.uuid us f ≡ some u
unfolding last_with
last_with-Member u [] f h d = absurd h.lower
last_with-Member u (v ∷ us) f (inl e) d =
    subst (λ w. last_with w.uuid (v ∷ us) f ≡ some w) e
      (rw (beq_refl v.uuid) (last_with-absent v.uuid us (some v) d.0))
last_with-Member u (v ∷ us) f (inr m) d = last_with-Member u us _ m d.1

pub last_with-cases :
    (x : String) (us : List UserInfo) (f : Option UserInfo)
    → ((has_uuid x us ≡ false) × (last_with x us f ≡ f))
      ⊎ ((u : UserInfo) × Member u us × (u.uuid ≡ x) × (last_with x us f ≡ some u))
unfolding last_with has_uuid
last_with-cases x [] f = inl (refl, refl)
last_with-cases x (v ∷ us) f = elim (last_with-cases x us (if v.uuid == x then some v else f)) [
  | inr (u, m, e, q) ↦ inr (u, inr m, e, q)
  | inl (h, q) ↦ elim (Bool-cases (v.uuid == x)) [
    | inl e ↦ inr (v, inl refl, (string_eq.beq_iff v.uuid x).0 e, q ∙ rw e refl)
    | inr e ↦ inl (rw e h, q ∙ rw e refl)
  ]
]

-- The index is left with the keys that no new user has.
pub scan_new-load :
    (k : String) (us : List UserInfo) (m : Map String ℕ)
    → load k (scan_new us m).0 ≡ (if has_key k us then none else load k m)
unfolding scan_new
scan_new-load k [] m = refl
scan_new-load k (u ∷ us) m = grind (
  arith,
  scan_new-load k us m,
  scan_new-load k us (delete (user_key u) m),
  load-delete (user_key u) k m,
  string_eq.beq_iff (user_key u) k,
)

pub index_users-load :
    (k : String) (i : ℕ) (us : List UserInfo) (m : Map String ℕ)
    → is_some (load k (index_users i us m)) ≡ (has_key k us || is_some (load k m))
unfolding index_users
index_users-load k i [] m = refl
index_users-load k i (u ∷ us) m =
    ground
      (arith, index_users-load k (suc i) us (store (user_key u) i m), load-store (user_key u) k i m)

pub scan_new-absent :
    (x : String) (us : List UserInfo) (m : Map String ℕ) (f : Option UserInfo)
    → has_uuid x us ≡ false
    → last_with x (scan_new us m).1 f ≡ f
unfolding scan_new has_uuid last_with
scan_new-absent x [] m f h = refl
scan_new-absent x (u ∷ us) m f h =
    ground (arith, scan_new-absent x us m f, scan_new-absent x us (delete (user_key u) m) f)

keys_differ :
    (n : ℕ) (u v : UserInfo) (us : List UserInfo)
    → IsRegular n u
    → All (IsRegular n) us
    → has_uuid u.uuid us ≡ false
    → Member v us
    → ((user_key u == user_key v) ≡ false) × ((u.uuid == v.uuid) ≡ false)
keys_differ n u v us ru rs h m =
    let uuids : u.uuid ≢ v.uuid =
      λ e. not_both (ap (λ x. has_uuid x us) e) (Member-has_uuid v us m) in
    (
      beq_ne _ _ (λ e. uuids (user_key-injective n u v ru (Member-All _ v us m rs) e).0),
      beq_ne _ _ uuids,
    )
  where
    not_both : {b : Bool} → has_uuid u.uuid us ≡ b → b ≡ true → ⊥
    not_both p q = cc

pub scan_new-present :
    (n : ℕ) (v : UserInfo) (us : List UserInfo) (m : Map String ℕ) (f : Option UserInfo)
    → All (IsRegular n) us
    → Distinct us
    → Member v us
    → last_with v.uuid (scan_new us m).1 f ≡ (if is_some (load (user_key v) m) then f else some v)
unfolding scan_new last_with
scan_new-present n v [] m f r d h = absurd h.lower
scan_new-present n v (u ∷ us) m f r d (inl e) =
    subst
      (λ w.
        last_with w.uuid (scan_new (u ∷ us) m).1 f
        ≡ (if is_some (load (user_key w) m) then f else some w))
      e
      (ground (
        arith,
        beq_refl u.uuid,
        scan_new-absent u.uuid us (delete (user_key u) m) f d.0,
        scan_new-absent u.uuid us m (some u) d.0,
      ))
scan_new-present n v (u ∷ us) m f r d (inr h) =
    let (keys, uuids) = keys_differ n u v us r.0 r.1 d.0 h in
    ground (
      arith,
      keys,
      uuids,
      load-delete (user_key u) (user_key v) m,
      scan_new-present n v us (delete (user_key u) m) f r.1 d.1 h,
      scan_new-present n v us m f r.1 d.1 h,
    )
