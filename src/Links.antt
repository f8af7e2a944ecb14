-- ===== src/Links.antt =====
-- core/app/dispatcher/linkmanager.go: the open links of one user. A `ManagedWriter` and a reader
-- are known by their numbers.
use kknode.Base.{
  ℕ, List, [], ◌∷◌, ◌≡◌, ◌⊎◌, inl, inr, none, some, Bool, true, false, ◌||◌, arith, is_some,
  is_some-cases,
}
use kknode.Base.Eq.{nat_eq, ◌==◌}
use kknode.Base.Map.{Map, load, store, delete, load-delete}

pub record LinkManager : Type 0 where
  pub links : Map ℕ ℕ

-- What has been closed and interrupted.
pub record Closed : Type 0 where
  pub writers : List ℕ
  pub readers : List ℕ

abbrev pub no_links : LinkManager
no_links = record { links = [] }

unfoldable pub add_link : ℕ → ℕ → LinkManager → LinkManager
add_link writer reader m = record m { links = store writer reader m.links }

unfoldable pub remove_writer : ℕ → LinkManager → LinkManager
remove_writer writer m = record m { links = delete writer m.links }

-- `ManagedWriter.Close`
unfoldable pub close_writer : ℕ → LinkManager → Closed → LinkManager × Closed
unfolding remove_writer
close_writer writer m c = (remove_writer writer m, record c { writers = writer ∷ c.writers })

-- the loop of `CloseAll` over the links that there are
unfoldable pub close_links : Map ℕ ℕ → LinkManager → Closed → LinkManager × Closed
unfolding close_writer
close_links [] m c = (m, c)
close_links ((w, r) ∷ links) m c =
    let (m', c') = close_writer w m c in
    close_links links m' (record c' { readers = r ∷ c'.readers })

unfoldable pub close_all : LinkManager → Closed → LinkManager × Closed
unfolding close_links
close_all m c = close_links m.links m c

abbrev pub has : ℕ → List ℕ → Bool
has n [] = false
has n (x ∷ xs) = x == n || has n xs

close_links-load :
    (w : ℕ) (links : Map ℕ ℕ) (m : LinkManager) (c : Closed)
    → ((load w m.links ≡ none) ⊎ (is_some (load w links) ≡ true))
    → load w (close_links links m c).0.links ≡ none
unfolding close_links load
close_links-load w [] m c (inl h) = h
close_links-load w [] m c (inr h) = cc
close_links-load w ((v, r) ∷ links) m c h =
    close_links-load w links _ _ (grind (arith, load-delete v w m.links, nat_eq.beq_iff v w))

-- What was closed before stays closed.
close_links-keep :
    (n : ℕ) (links : Map ℕ ℕ) (m : LinkManager) (c : Closed)
    → ((has n c.writers ≡ true) → (has n (close_links links m c).1.writers ≡ true))
      × ((has n c.readers ≡ true) → (has n (close_links links m c).1.readers ≡ true))
unfolding close_links
close_links-keep n [] m c = (λ h. h, λ h. h)
close_links-keep n ((v, r) ∷ links) m c =
    let ih =
      close_links-keep n links (remove_writer v m)
        (record { writers = v ∷ c.writers; readers = r ∷ c.readers }) in
    (λ h. ih.0 (ground arith), λ h. ih.1 (ground arith))

close_links-closed :
    (w r : ℕ) (links : Map ℕ ℕ) (m : LinkManager) (c : Closed)
    → load w links ≡ some r
    → (has w (close_links links m c).1.writers ≡ true)
      × (has r (close_links links m c).1.readers ≡ true)
unfolding close_links load
close_links-closed w r [] m c h = cc
close_links-closed w r ((v, s) ∷ links) m c h =
    let c' : Closed = record { writers = v ∷ c.writers; readers = s ∷ c.readers } in
    let kept = close_links-keep w links (remove_writer v m) c' in
    let kept' = close_links-keep r links (remove_writer v m) c' in
    let rest = close_links-closed w r links (remove_writer v m) c' in
    (ground (arith, nat_eq.beq_iff v w), ground (arith, nat_eq.beq_iff v w, nat_eq.beq_iff s r))

-- `CloseAll` closes the writer and interrupts the reader of every link, and no link is left.
pub close_all_lem :
    (m : LinkManager) (c : Closed) (w : ℕ)
    → (load w (close_all m c).0.links ≡ none)
      × ((r : ℕ)
          → load w m.links ≡ some r
          → (has w (close_all m c).1.writers ≡ true) × (has r (close_all m c).1.readers ≡ true))
unfolding close_all
close_all_lem m c w = (
  close_links-load w m.links m c (is_some-cases (load w m.links)),
  λ r h. close_links-closed w r m.links m c h,
)
