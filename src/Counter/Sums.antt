-- ===== src/Counter/Sums.antt =====
-- What the counters of the users hold after each operation.
use kknode.Base.{String, ◌≡◌, if◌then◌else◌, arith}
use kknode.Base.Int.{ℤ, pos, ◌+ℤ◌, wrap64}
use kknode.Base.Eq.{string_eq, ◌==◌}
use kknode.Base.Map.{load-store, load-delete}
use kknode.Counter.{TrafficCounter, get_up_count, get_down_count, reset, delete_counter, rx, tx}

-- `Rx` and `Tx` of a user add to the one counter of that user, in 64 bits, and change no other.
pub rx-tx_lem :
    (uuid other : String) (n : ℤ) (c : TrafficCounter)
    → (get_down_count other (rx uuid n c)
        ≡ (if uuid == other then wrap64 (get_down_count other c +ℤ n) else get_down_count other c))
      × (get_up_count other (rx uuid n c) ≡ get_up_count other c)
      × (get_up_count other (tx uuid n c)
          ≡ (if uuid == other then wrap64 (get_up_count other c +ℤ n) else get_up_count other c))
      × (get_down_count other (tx uuid n c) ≡ get_down_count other c)
unfolding get_down_count get_up_count rx tx
rx-tx_lem uuid other n c = (
  grind (arith, load-store, string_eq.beq_iff uuid other),
  grind (arith, load-store, string_eq.beq_iff uuid other),
  grind (arith, load-store, string_eq.beq_iff uuid other),
  grind (arith, load-store, string_eq.beq_iff uuid other),
)

-- After `Reset` and after `Delete` a user's counters read zero, and those of others as before.
pub reset-delete_lem :
    (uuid other : String) (c : TrafficCounter)
    → (get_up_count other (reset uuid c) ≡ (if uuid == other then pos 0 else get_up_count other c))
      × (get_down_count other (reset uuid c)
          ≡ (if uuid == other then pos 0 else get_down_count other c))
      × (get_up_count other (delete_counter uuid c)
          ≡ (if uuid == other then pos 0 else get_up_count other c))
      × (get_down_count other (delete_counter uuid c)
          ≡ (if uuid == other then pos 0 else get_down_count other c))
unfolding get_down_count get_up_count reset delete_counter
reset-delete_lem uuid other c = (
  grind (arith, load-store, string_eq.beq_iff uuid other),
  grind (arith, load-store, string_eq.beq_iff uuid other),
  grind (arith, load-delete, string_eq.beq_iff uuid other),
  grind (arith, load-delete, string_eq.beq_iff uuid other),
)
