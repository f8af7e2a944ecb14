-- ===== src/Server/Rounds.antt =====
-- The loop of `startBackends`, round by round.
use kknode.Base.{Member, ◌≡◌, refl, ◌⊎◌, inl, inr, List, [], ◌∷◌, ◌++◌, Option, none, some, ap, sym}
use kknode.Base.Eq.{string_eq}
use kknode.Portmap.{PortRangeRecord}
use kknode.Xray.Config.{LogConfig}
use kknode.Server.{Shared, Running, Started, start_backend, with_backend, start_each}
use kknode.Server.Loading.{ServerApiConfig, Platform}
use kknode.Server.Running.{IsRunning, Skipped, Fine, Breaks, start_backend-Fine}

module _ {C D R S : Type 0} (io : Platform C D R S) where
  -- the state after a round, `none` for a panic
  abbrev pub result_of : Started io → Option (Shared S)
  result_of none = none
  result_of (some (w, b, ports)) = some w

  -- The rounds of `startBackends`, from one state to the next: each configuration has a backend that
  -- runs, at its place of the list, or it is skipped for a reason.
  abbrev pub Rounds :
      LogConfig → List ServerApiConfig → Shared S → List (Running io) → Shared S → Type 0
  Rounds log [] w bs w' = (bs ≡ []) × (w' ≡ w)
  Rounds log (a ∷ rest) w bs w' =
      ((v : Shared S) × (b : Running io) × (others : List (Running io)) × (bs ≡ b ∷ others)
        × (b.config ≡ a)
        × IsRunning b
        × (result_of (start_backend io log a w) ≡ some v)
        × Rounds log rest v others w')
      ⊎ ((v : Shared S) × Skipped io log a w
          × (result_of (start_backend io log a w) ≡ some v)
          × Rounds log rest v bs w')

  pub start_each-Rounds :
      (log : LogConfig) (nodes : List ServerApiConfig) (w w' : Shared S) (bs : List (Running io))
      (ports : List PortRangeRecord)
      → start_each io log nodes w ≡ some (w', bs, ports)
      → Rounds log nodes w bs w'
  unfolding start_each with_backend
  start_each-Rounds log [] w w' bs ports = λ e. (cc, cc)
  start_each-Rounds log (a ∷ rest) w w' bs ports =
      first (start_backend io log a w) refl (start_backend-Fine io log a w)
        (λ v cs qs h. start_each-Rounds log rest v w' cs qs h)
    where
      Goal : Option (Shared S × List (Running io) × List PortRangeRecord) → Type 0
      Goal o = o ≡ some (w', bs, ports) → Rounds log (a ∷ rest) w bs w'

      more :
          (v : Shared S) (b : Option (Running io)) (ps : List PortRangeRecord)
          (o : Option (Shared S × List (Running io) × List PortRangeRecord))
          → start_backend io log a w ≡ some (v, b, ps)
          → Fine io a (Breaks io log a) (Skipped io log a w) (some (v, b, ps))
          → ((cs : List (Running io)) (qs : List PortRangeRecord)
              → o ≡ some (w', cs, qs)
              → Rounds log rest v cs w')
          → Goal
              (elim o [ none ↦ none | some (u, cs, qs) ↦ some (u, with_backend io b cs, ps ++ qs) ])
      more v b ps none q f g = λ h. absurd (cc)
      more v none ps (some (u, cs, qs)) q f g = λ h.
          let eu : u ≡ w' = cc in
          let eb : cs ≡ bs = cc in inr (v, f, ap (result_of) q, g bs qs (rw (eu, eb) refl))
      more v (some b) ps (some (u, cs, qs)) q f g = λ h.
          let eu : u ≡ w' = cc in
          let eb : b ∷ cs ≡ bs = cc in
          inl
            (v, b, cs, sym eb, f.0, f.1, ap (result_of) q, g cs qs (ap (λ x. some (x, cs, qs)) eu))

      first :
          (o : Started io)
          → start_backend io log a w ≡ o
          → Fine io a (Breaks io log a) (Skipped io log a w) o
          → ((v : Shared S) (cs : List (Running io)) (qs : List PortRangeRecord)
              → start_each io log rest v ≡ some (w', cs, qs)
              → Rounds log rest v cs w')
          → Goal (elim o [
            | none ↦ none
            | some (v, b, ps) ↦ elim (start_each io log rest v) [
              | none ↦ none
              | some (u, cs, qs) ↦ some (u, with_backend io b cs, ps ++ qs)
            ]
          ])
      first none q f g = λ h. absurd (cc)
      first (some (v, b, ps)) q f g = more v b ps (start_each io log rest v) q f (g v)

  pub start_each-Breaks :
      (log : LogConfig) (nodes : List ServerApiConfig) (w : Shared S)
      → start_each io log nodes w ≡ none
      → (a : ServerApiConfig) × Member a nodes × Breaks io log a
  unfolding start_each
  start_each-Breaks log [] w = λ e. absurd (cc)
  start_each-Breaks log (a ∷ rest) w =
      first (start_backend io log a w) (start_backend-Fine io log a w)
        (λ v. start_each-Breaks log rest v)
    where
      Goal : Option (Shared S × List (Running io) × List PortRangeRecord) → Type 0
      Goal o = o ≡ none → (x : ServerApiConfig) × Member x (a ∷ rest) × Breaks io log x

      more :
          (b : Option (Running io)) (ps : List PortRangeRecord)
          (o : Option (Shared S × List (Running io) × List PortRangeRecord))
          → (o ≡ none → (x : ServerApiConfig) × Member x rest × Breaks io log x)
          → Goal
              (elim o [ none ↦ none | some (u, cs, qs) ↦ some (u, with_backend io b cs, ps ++ qs) ])
      more b ps none g = λ h. let (x, m, k) = g refl in (x, inr m, k)
      more b ps (some (u, cs, qs)) g = λ h. absurd (cc)

      first :
          (o : Started io)
          → Fine io a (Breaks io log a) (Skipped io log a w) o
          → ((v : Shared S)
              → start_each io log rest v ≡ none
              → (x : ServerApiConfig) × Member x rest × Breaks io log x)
          → Goal (elim o [
            | none ↦ none
            | some (v, b, ps) ↦ elim (start_each io log rest v) [
              | none ↦ none
              | some (u, cs, qs) ↦ some (u, with_backend io b cs, ps ++ qs)
            ]
          ])
      first none f g = λ h. (a, inl refl, f)
      first (some (v, b, ps)) f g = more b ps (start_each io log rest v) (g v)
