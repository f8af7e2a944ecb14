-- ===== src/Task.antt =====
-- common/task/task.go: a periodic task, as a relation between states. A channel is known by how many
-- were made up to it; a goroutine by what it is doing.
pub mod Stopping
use kknode.Base.{ℕ, suc, ◌≡◌, Bool, true, false, List, [], ◌∷◌, ◌++◌, Member, if◌then◌else◌}

-- A goroutine of the loop. The expression `t.Stop` is evaluated each time it comes to the `select`.
pub data Loop : Type 0 where
  resting : Loop
  -- in the `select`, on this channel
  waiting : ℕ → Loop
  executing : Loop

pub record Task : Type 0 where
  pub running : Bool
  -- the channel `Stop`, and how many were made
  pub stop : ℕ
  -- the channels that are closed
  pub closed : List ℕ
  -- the goroutines that have not returned
  pub loops : List Loop

abbrev pub new_task : Task
new_task = record { running = false; stop = 0; closed = []; loops = [] }

unfoldable pub start : Bool → Task → Task
start first t = if t.running then t else record t {
  running = true;
  stop = suc t.stop;
  loops = (if first then executing else resting) ∷ t.loops;
}

unfoldable pub safe_stop : Task → Task
safe_stop t = if t.running then record t { running = false; closed = t.stop ∷ t.closed } else t

-- One step: a call from outside, or of one goroutine. In the `select` its timer is ready, or its
-- channel. A run that fails ends the goroutine, a run that succeeds or times out does not.
pub data Step : Task → Task → Type 0 where
  call_start : (first : Bool) (t : Task) → Step t (start first t)
  call_close : (t : Task) → Step t (safe_stop t)
  selects :
      (t : Task) (ls ms : List Loop)
      → t.loops ≡ ls ++ resting ∷ ms
      → Step t (record t { loops = ls ++ waiting t.stop ∷ ms })
  fires :
      (t : Task) (c : ℕ) (ls ms : List Loop)
      → t.loops ≡ ls ++ waiting c ∷ ms
      → Step t (record t { loops = ls ++ executing ∷ ms })
  stopped :
      (t : Task) (c : ℕ) (ls ms : List Loop)
      → t.loops ≡ ls ++ waiting c ∷ ms
      → Member c t.closed
      → Step t (record t { loops = ls ++ ms })
  run_ends :
      (t : Task) (ls ms : List Loop)
      → t.loops ≡ ls ++ executing ∷ ms
      → Step t (record t { loops = ls ++ resting ∷ ms })
  run_fails :
      (t : Task) (ls ms : List Loop)
      → t.loops ≡ ls ++ executing ∷ ms
      → Step t (record t { loops = ls ++ ms })

pub data Reaches : Task → Type 0 where
  begin : Reaches new_task
  next : (t u : Task) → Reaches t → Step t u → Reaches u
