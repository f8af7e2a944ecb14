-- ===== src/Node/Deleted.antt =====
-- The deleted users that `compareUserList` gives: the old users at the positions left in the index.
use kknode.Base.{
  ℕ, zero, suc, ◌+◌, String, ◌≡◌, refl, subst, ◌∙◌, inl, inr, Bool, true, false, not, ◌&&◌, List,
  [], ◌∷◌, none, some, All, Member, get_elem?, is_some, if◌then◌else◌, arith, Bool-cases,
}
use kknode.Base.Eq.{string_eq, ◌==◌, beq_refl}
use kknode.Base.Map.{Map, load, delete, All-store, All-delete}
use kknode.Limiter.Users.{last_with, has_uuid}
use kknode.Panel.{UserInfo}
use kknode.Node.{user_key, index_users, scan_new, pick, compare_user_list}
use kknode.Node.Keys.{IsRegular, user_key-injective}
use kknode.Node.Compare.{
  Distinct, has_key, Member-has_key, scan_new-load, index_users-load, scan_new-present,
  scan_new-absent, Member-All,
}

-- The entry of the index is the position of a user with its key.
abbrev pub Refers : List UserInfo → String × ℕ → Type 0
Refers old e = (u : UserInfo) × (get_elem? old e.1 ≡ some u) × (user_key u ≡ e.0) × Member u old

get_elem?-Member :
    (us : List UserInfo) (i : ℕ) (u : UserInfo) → get_elem? us i ≡ some u → Member u us
get_elem?-Member [] i u h = cc
get_elem?-Member (v ∷ us) zero u h = inl cc
get_elem?-Member (v ∷ us) (suc i) u h = inr (get_elem?-Member us i u h)

index_users-Refers :
    (old : List UserInfo) (i : ℕ) (us : List UserInfo) (m : Map String ℕ)
    → ((j : ℕ) (u : UserInfo) → get_elem? us j ≡ some u → get_elem? old (i + j) ≡ some u)
    → All (Refers old) m
    → All (Refers old) (index_users i us m)
unfolding index_users
index_users-Refers old i [] m at a = a
index_users-Refers old i (u ∷ us) m at a =
    let here : get_elem? old i ≡ some u =
      subst (λ n. get_elem? old n ≡ some u) (omega arith) (at zero u refl) in
    index_users-Refers old (suc i) us _
      (λ j w h. subst (λ n. get_elem? old n ≡ some w) (omega arith) (at (suc j) w h))
      (All-store (Refers old) (user_key u) i m (u, here, refl, get_elem?-Member old i u here) a)

scan_new-Refers :
    (old us : List UserInfo) (m : Map String ℕ)
    → All (Refers old) m
    → All (Refers old) (scan_new us m).0
unfolding scan_new
scan_new-Refers old [] m a = a
scan_new-Refers old (u ∷ us) m a =
    either (is_some (load (user_key u) m))
      (scan_new-Refers old us _ (All-delete (Refers old) (user_key u) m a))
      (scan_new-Refers old us m a)
  where
    either :
        (b : Bool)
        → All (Refers old) (scan_new us (delete (user_key u) m)).0
        → All (Refers old) (scan_new us m).0
        → All
            (Refers old)
            (if b
              then scan_new us (delete (user_key u) m)
              else ((scan_new us m).0, u ∷ (scan_new us m).1)).0
    either true x y = x
    either false x y = y

pick-cons :
    (old : List UserInfo) (k : String) (i : ℕ) (m : Map String ℕ) (u : UserInfo)
    → get_elem? old i ≡ some u
    → pick old ((k, i) ∷ m) ≡ u ∷ pick old m
unfolding pick
pick-cons old k i m u e = rw (e, pick) refl

-- The users at the positions of an index are old users whose keys it holds.
pick-from :
    (x : String) (old : List UserInfo) (m : Map String ℕ)
    → All (Refers old) m
    → has_uuid x (pick old m) ≡ true
    → (u : UserInfo) × Member u old × (u.uuid ≡ x) × (is_some (load (user_key u) m) ≡ true)
unfolding pick has_uuid load
pick-from x old [] a h = cc
pick-from x old ((k, i) ∷ m) a h =
    let (u, at, key, mem) = a.0 in
    let h' : has_uuid x (u ∷ pick old m) ≡ true =
      subst (λ us. has_uuid x us ≡ true) (pick-cons old k i m u at) h in
    elim (Bool-cases (u.uuid == x)) [
      | inl e ↦ (
        u,
        mem,
        (string_eq.beq_iff u.uuid x).0 e,
        ground (arith, string_eq.beq_iff k (user_key u), key),
      )
      | inr e ↦
          let (w, mw, ew, hw) = pick-from x old m a.1 (ground arith) in (w, mw, ew, ground arith)
    ]

-- Every key of an index is that of a user at one of its positions.
pick-to :
    (k : String) (old : List UserInfo) (m : Map String ℕ)
    → All (Refers old) m
    → is_some (load k m) ≡ true
    → (u : UserInfo) × Member u old × (user_key u ≡ k) × (has_uuid u.uuid (pick old m) ≡ true)
unfolding pick has_uuid load
pick-to k old [] a h = cc
pick-to k old ((j, i) ∷ m) a h =
    let (u, at, key, mem) = a.0 in
    let here = pick-cons old j i m u at in
    elim (Bool-cases (j == k)) [
      | inl e ↦
          (u, mem, key ∙ (string_eq.beq_iff j k).0 e, rw here (ground (arith, beq_refl u.uuid)))
      | inr e ↦
          let (w, mw, kw, hw) = pick-to k old m a.1 (ground arith) in
          (w, mw, kw, rw here (ground arith))
    ]

-- what is left of the index of the old users
abbrev left : List UserInfo → List UserInfo → Map String ℕ
left old new = (scan_new new (index_users 0 old [])).0

left-Refers : (old new : List UserInfo) → All (Refers old) (left old new)
left-Refers old new = scan_new-Refers old new _ (
    index_users-Refers old 0 old [] (λ j u h. subst (λ n. get_elem? old n ≡ some u) (omega arith) h)
      tt)

left-load :
    (k : String) (old new : List UserInfo)
    → is_some (load k (left old new)) ≡ (has_key k old && not (has_key k new))
unfolding load
left-load k old new =
    ground (arith, scan_new-load k new (index_users 0 old []), index_users-load k 0 old [])

-- A UUID is deleted where an old user has it whose key no new user has, and only there.
pub deleted-from :
    (x : String) (old new : List UserInfo)
    → has_uuid x (compare_user_list old new).0 ≡ true
    → (u : UserInfo) × Member u old × (u.uuid ≡ x) × (has_key (user_key u) new ≡ false)
unfolding compare_user_list
deleted-from x old new h =
    let (u, m, e, l) = pick-from x old (left old new) (left-Refers old new) h in
    (u, m, e, ground (arith, left-load (user_key u) old new))

pub deleted-to :
    (n : ℕ) (u : UserInfo) (old new : List UserInfo)
    → All (IsRegular n) old
    → Member u old
    → has_key (user_key u) new ≡ false
    → has_uuid u.uuid (compare_user_list old new).0 ≡ true
unfolding compare_user_list
deleted-to n u old new r m h =
    let (w, mw, kw, hw) =
      pick-to (user_key u) old (left old new) (left-Refers old new)
        (ground (arith, left-load (user_key u) old new, Member-has_key u old m)) in
    let same = user_key-injective n w u (Member-All _ w old mw r) (Member-All _ u old m r) kw in
    subst (λ x. has_uuid x (pick old (left old new)) ≡ true) same.0 hw

-- An added user is a new user whose key no old user has.
pub added-present :
    (n : ℕ) (v : UserInfo) (old new : List UserInfo)
    → All (IsRegular n) new
    → Distinct new
    → Member v new
    → last_with v.uuid (compare_user_list old new).1 none
      ≡ (if has_key (user_key v) old then none else some v)
unfolding compare_user_list load
added-present n v old new r d m = ground (
  arith,
  scan_new-present n v new (index_users 0 old []) none r d m,
  index_users-load (user_key v) 0 old [],
)

pub added-absent :
    (x : String) (old new : List UserInfo)
    → has_uuid x new ≡ false
    → last_with x (compare_user_list old new).1 none ≡ none
unfolding compare_user_list
added-absent x old new h = scan_new-absent x new (index_users 0 old []) none h
