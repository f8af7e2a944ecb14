-- ===== src/Base/Map.antt =====
-- Go's `map` and `sync.Map`, as association lists: `load`, `store`, `delete`, and their laws. The
-- order of the list stands for the order in which `Range` visits the entries.
use mathlib.Core.Path.{◌≡◌, refl}
use mathlib.Core.Bool.{Bool, true, false}
use mathlib.Core.Option.{Option, none, some}
use mathlib.Core.List.{List, [], ◌∷◌}
use native.Mathlib.Omega.{arith}
use kknode.Base.Tests.{if◌then◌else◌}
use kknode.Base.Eq.{Eq, ◌==◌}
use kknode.Base.Lists.{All}

abbrev pub Map {ℓ κ} : Type ℓ → Type κ → Type (ℓ ⊔ κ)
Map K V = List (K × V)

module _ {ℓ κ} {K : Type ℓ} {V : Type κ} ⦃e : Eq K⦄ where
  unfoldable pub load : K → Map K V → Option V
  load k [] = none
  load k ((j, v) ∷ m) = if j == k then some v else load k m

  -- the value, or the zero value of the type
  unfoldable pub load_or : V → K → Map K V → V
  load_or d k [] = d
  load_or d k ((j, v) ∷ m) = if j == k then v else load_or d k m

  unfoldable pub store : K → V → Map K V → Map K V
  store k v [] = (k, v) ∷ []
  store k v ((j, w) ∷ m) = if j == k then (k, v) ∷ m else (j, w) ∷ store k v m

  unfoldable pub delete : K → Map K V → Map K V
  delete k [] = []
  delete k ((j, w) ∷ m) = if j == k then delete k m else (j, w) ∷ delete k m

  pub load-store :
      (k j : K) (v : V) (m : Map K V) → load j (store k v m) ≡ (if k == j then some v else load j m)
  unfolding load store
  load-store k j v [] = refl
  load-store k j v ((i, w) ∷ m) =
      ground (arith, e.beq_iff k j, e.beq_iff i k, e.beq_iff i j, load-store k j v m)

  pub load-delete :
      (k j : K) (m : Map K V) → load j (delete k m) ≡ (if k == j then none else load j m)
  unfolding load delete
  load-delete k j [] = ground arith
  load-delete k j ((i, w) ∷ m) =
      ground (arith, e.beq_iff k j, e.beq_iff i k, e.beq_iff i j, load-delete k j m)

  pub load_or-load :
      (d : V) (k : K) (m : Map K V) → load_or d k m ≡ elim (load k m) [ none ↦ d | some v ↦ v ]
  unfolding load load_or
  load_or-load d k [] = refl
  load_or-load d k ((j, v) ∷ m) = ground (arith, load_or-load d k m)

  -- What holds of every entry still does, where one is stored of which it holds, or some are deleted.
  module _ {μ} (P : K × V → Type μ) where
    pub All-store : (k : K) (v : V) (m : Map K V) → P (k, v) → All P m → All P (store k v m)
    unfolding store
    All-store k v [] p a = (p, tt)
    All-store k v ((j, w) ∷ m) p a = if_store (j == k) (p, a.1) (a.0, All-store k v m p a.1)
      where
        if_store :
            (b : Bool)
            → All P ((k, v) ∷ m)
            → All P ((j, w) ∷ store k v m)
            → All P (if b then (k, v) ∷ m else (j, w) ∷ store k v m)
        if_store true x y = x
        if_store false x y = y

    pub All-delete : (k : K) (m : Map K V) → All P m → All P (delete k m)
    unfolding delete
    All-delete k [] a = tt
    All-delete k ((j, w) ∷ m) a = if_delete (j == k) (All-delete k m a.1)
      where
        if_delete :
            (b : Bool) → All P (delete k m) → All P (if b then delete k m else (j, w) ∷ delete k m)
        if_delete true x = x
        if_delete false x = (a.0, x)
