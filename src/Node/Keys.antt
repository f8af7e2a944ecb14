-- ===== src/Node/Keys.antt =====
-- The key that `compareUserList` makes of a user: it stands for the UUID and the speed limit, where
-- UUIDs are of one length and no speed limit is negative.
use Prim.Native.String
use Prim.Native.String.{count}
use text.Mathlib.TextLemmas.{nil-append, cons-append, length-cons, length-nil}
use kknode.Base.{ℕ, ◌<◌, ◌^◌, String, ◌≡◌, refl, ap, sym, ◌∙◌, arith, some}
use kknode.Base.Int.{pos}
use kknode.Base.Text.{itoa, atoi}
use kknode.Base.Text.Numbers.{atoi-itoa}
use kknode.Panel.{UserInfo}
use kknode.Node.{user_key}

append-split :
    (s t a b : String) → count s ≡ count t → String.◌++◌ s a ≡ String.◌++◌ t b → (s ≡ t) × (a ≡ b)
append-split String.[] String.[] a b h e = (refl, sym (nil-append a) ∙ e ∙ nil-append b)
append-split String.[] (String.◌∷◌ d t) a b h e =
    absurd (omega (arith, length-cons d t, length-nil, h))
append-split (String.◌∷◌ c s) String.[] a b h e =
    absurd (omega (arith, length-cons c s, length-nil, h))
append-split (String.◌∷◌ c s) (String.◌∷◌ d t) a b h e =
    let e' : String.◌∷◌ c (String.◌++◌ s a) ≡ String.◌∷◌ d (String.◌++◌ t b) =
      sym (cons-append c s a) ∙ e ∙ cons-append d t b in
    let tail : String.◌++◌ s a ≡ String.◌++◌ t b = cc in
    let head : c ≡ d = cc in
    let rest = append-split s t a b (omega (arith, length-cons c s, length-cons d t, h)) tail in
    (rw (head, rest.0) refl, rest.1)

-- The UUID has `n` characters, and the speed limit is an `int` that is not negative.
pub record IsRegular (n : ℕ) (u : UserInfo) : Type 0 where
  pub uuid_length : count u.uuid ≡ n
  pub speed : ℕ
  pub speed_eq : u.speed_limit ≡ pos speed
  pub speed_lt : speed < 2 ^ 63

itoa-injective : (m n : ℕ) → m < 2 ^ 63 → n < 2 ^ 63 → itoa (pos m) ≡ itoa (pos n) → pos m ≡ pos n
itoa-injective m n h k e =
    let e' : some (pos m) ≡ some (pos n) = sym (atoi-itoa m h) ∙ ap atoi e ∙ atoi-itoa n k in cc

pub user_key-injective :
    (n : ℕ) (u v : UserInfo)
    → IsRegular n u
    → IsRegular n v
    → user_key u ≡ user_key v
    → (u.uuid ≡ v.uuid) × (u.speed_limit ≡ v.speed_limit)
unfolding user_key
user_key-injective n u v p q e =
    let (a, b) = append-split u.uuid v.uuid _ _ (p.uuid_length ∙ sym q.uuid_length) e in
    let b' = sym (ap itoa p.speed_eq) ∙ b ∙ ap itoa q.speed_eq in
    (a, p.speed_eq ∙ itoa-injective p.speed q.speed p.speed_lt q.speed_lt b' ∙ sym q.speed_eq)
