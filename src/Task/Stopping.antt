-- ===== src/Task/Stopping.antt =====
-- Which goroutines of a task are told to stop.
use kknode.Base.{
  ℕ, suc, ◌≤◌, ◌<◌, ◌≡◌, refl, ◌⊎◌, inl, inr, Bool, true, false, List, [], ◌∷◌, ◌++◌, Member, All,
  All-imp, sym, subst, arith, if-elim, if◌then◌else◌, ◌∙◌,
}
use kknode.Task.{
  Loop, resting, waiting, executing, Task, start, safe_stop, Step, call_start, call_close, selects,
  fires, stopped, run_ends, run_fails, Reaches, begin, next,
}

-- A goroutine in the `select` waits for a channel that is closed, or for that of the running task.
abbrev pub Hears : Task → Loop → Type 0
Hears t resting = Unit
Hears t (waiting c) = Member c t.closed ⊎ ((t.running ≡ true) × (c ≡ t.stop))
Hears t executing = Unit

-- The channel that a goroutine waits for, or will come to as its next, is closed.
abbrev pub Told : Task → Loop → Type 0
Told t resting = Member t.stop t.closed
Told t (waiting c) = Member c t.closed
Told t executing = Member t.stop t.closed

abbrev Fits : Task → Loop → Type 0
Fits t l = ((t.running ≡ true) ⊎ Member t.stop t.closed) × Hears t l

pub record IsSound (t : Task) : Type 0 where
  pub fits : All (Fits t) t.loops
  pub fresh : All (λ c. c ≤ t.stop) t.closed
  pub open_stop : t.running ≡ true → All (λ c. c < t.stop) t.closed

not_both : true ≡ false → ⊥
not_both e = cc

start-IsSound : (first : Bool) (t : Task) → IsSound t → IsSound (start first t)
unfolding start
start-IsSound first t v =
    if-elim IsSound t.running t _ (λ r. v)
      (λ r. record {
        fits = (
          (
            inl refl,
            silent
                (record t {
                  running = true;
                  stop = suc t.stop;
                  loops = (if first then executing else resting) ∷ t.loops;
                })
                first,
          ),
          All-imp (λ l p. (inl refl, heard l r p.1)) t.loops v.fits,
        );
        fresh = All-imp (λ c h. omega (arith, h)) t.closed v.fresh;
        open_stop = λ _. All-imp (λ c h. omega (arith, h)) t.closed v.fresh;
      })
  where
    silent : (u : Task) (first : Bool) → Hears u (if first then executing else resting)
    silent u true = tt
    silent u false = tt

    heard :
        (l : Loop)
        → t.running ≡ false
        → Hears t l
        → Hears (record t { running = true; stop = suc t.stop }) l
    heard resting r h = tt
    heard (waiting c) r (inl m) = inl m
    heard (waiting c) r (inr p) = absurd (not_both (sym p.0 ∙ r))
    heard executing r h = tt

safe_stop-IsSound : (t : Task) → IsSound t → IsSound (safe_stop t)
unfolding safe_stop
safe_stop-IsSound t v =
    if-elim IsSound t.running _ t
      (λ r. record {
        fits = All-imp (λ l p. (inr (inl refl), heard l p.1)) t.loops v.fits;
        fresh = (omega arith, v.fresh);
        open_stop = λ h. absurd (not_both (sym h));
      })
      (λ r. v)
  where
    heard :
        (l : Loop) → Hears t l → Hears (record t { running = false; closed = t.stop ∷ t.closed }) l
    heard resting h = tt
    heard (waiting c) (inl m) = inl (inr m)
    heard (waiting c) (inr p) = inl (inl (sym p.1))
    heard executing h = tt

-- One goroutine of the list changes, or leaves it.
All-change :
    (P : Loop → Type 0) (l k : Loop) (ls ms : List Loop)
    → (P l → P k)
    → All P (ls ++ l ∷ ms)
    → All P (ls ++ k ∷ ms)
All-change P l k [] ms f a = (f a.0, a.1)
All-change P l k (x ∷ ls) ms f a = (a.0, All-change P l k ls ms f a.1)

All-leave :
    (P : Loop → Type 0) (l : Loop) (ls ms : List Loop) → All P (ls ++ l ∷ ms) → All P (ls ++ ms)
All-leave P l [] ms a = a.1
All-leave P l (x ∷ ls) ms a = (a.0, All-leave P l ls ms a.1)

with_loops :
    (t : Task) (ls : List Loop) → IsSound t → All (Fits t) ls → IsSound (record t { loops = ls })
with_loops t ls v a = record { fits = a; fresh = v.fresh; open_stop = v.open_stop }

Step-IsSound : (t u : Task) → Step t u → IsSound t → IsSound u
Step-IsSound t u (call_start first _) v = start-IsSound first t v
Step-IsSound t u (call_close _) v = safe_stop-IsSound t v
Step-IsSound t u (selects _ ls ms e) v = with_loops t _ v (
    All-change (Fits t) resting (waiting t.stop) ls ms
      (λ p. (p.0, elim p.0 [ inl r ↦ inr (r, refl) | inr m ↦ inl m ]))
      (subst (All (Fits t)) e v.fits))
Step-IsSound t u (fires _ c ls ms e) v = with_loops t _ v (
    All-change (Fits t) (waiting c) executing ls ms (λ p. (p.0, tt))
      (subst (All (Fits t)) e v.fits))
Step-IsSound t u (stopped _ c ls ms e _) v =
    with_loops t _ v (All-leave (Fits t) (waiting c) ls ms (subst (All (Fits t)) e v.fits))
Step-IsSound t u (run_ends _ ls ms e) v =
    with_loops t _ v
      (All-change (Fits t) executing resting ls ms (λ p. p) (subst (All (Fits t)) e v.fits))
Step-IsSound t u (run_fails _ ls ms e) v =
    with_loops t _ v (All-leave (Fits t) executing ls ms (subst (All (Fits t)) e v.fits))

Reaches-IsSound : (t : Task) → Reaches t → IsSound t
Reaches-IsSound t begin = record { fits = tt; fresh = tt; open_stop = λ h. tt }
Reaches-IsSound t (next s _ r x) = Step-IsSound s t x (Reaches-IsSound s r)

halted : (t : Task) → (safe_stop t).running ≡ false
unfolding safe_stop
halted t = if-elim (λ (u : Task). u.running ≡ false) t.running _ t (λ r. refl) (λ r. r)

not_below : (n : ℕ) (cs : List ℕ) → All (λ c. c < n) cs → Member n cs → ⊥
not_below n [] a m = m.lower
not_below n (c ∷ cs) a (inl e) = omega (arith, a.0, e)
not_below n (c ∷ cs) a (inr m) = not_below n cs a.1 m

-- In every state that a task reaches, `Close` closes no channel for the second time, and a goroutine
-- in the `select` waits for a channel that is closed, or for the channel of the running task. After
-- `Close` every goroutine waits for a closed channel, or the one that it will come to is closed.
pub Reaches-Told :
    (t : Task)
    → Reaches t
    → (t.running ≡ true → ¬ Member t.stop t.closed)
      × All (Hears t) t.loops
      × All (Told (safe_stop t)) (safe_stop t).loops
Reaches-Told t r =
    let v = Reaches-IsSound t r in
    let u = safe_stop-IsSound t v in
    (
      (λ h m. not_below t.stop t.closed (v.open_stop h) m),
      All-imp (λ l p. p.1) t.loops v.fits,
      All-imp (told (safe_stop t) (halted t)) (safe_stop t).loops u.fits,
    )
  where
    told : (t : Task) → t.running ≡ false → (l : Loop) → Fits t l → Told t l
    told t h l (inl r, k) = absurd (not_both (sym r ∙ h))
    told t h resting (inr m, k) = m
    told t h (waiting c) (inr m, inl k) = k
    told t h (waiting c) (inr m, inr k) = absurd (not_both (sym k.0 ∙ h))
    told t h executing (inr m, k) = m
