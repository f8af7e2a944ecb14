-- ===== src/Counter.antt =====
-- common/counter/traffic.go and common/counter/xraytraffic.go: the bytes that each user of a node
-- sent and received. The counters are `atomic.Int64`, whose additions wrap around.
pub mod Sums
use kknode.Base.{ℕ, suc, String, List, [], ◌∷◌, Option, none, some, length, if◌then◌else◌}
use kknode.Base.Int.{ℤ, pos, ◌+ℤ◌, wrap64}
use kknode.Base.Eq.{string_eq, ◌==◌}
use kknode.Base.Map.{Map, load, store, delete}

pub record TrafficStorage : Type 0 where
  pub up_counter : ℤ
  pub down_counter : ℤ

abbrev pub TrafficCounter : Type 0
TrafficCounter = Map String TrafficStorage

unfoldable pub new_traffic_counter : TrafficCounter
new_traffic_counter = []

abbrev pub zero_storage : TrafficStorage
zero_storage = record { up_counter = pos 0; down_counter = pos 0 }

-- the counters of a user, made where there are none
unfoldable pub get_counter : String → TrafficCounter → TrafficCounter × TrafficStorage
get_counter uuid c = elim (load uuid c) [
  | some ts ↦ (c, ts)
  | none ↦ (store uuid zero_storage c, zero_storage)
]

unfoldable pub get_up_count : String → TrafficCounter → ℤ
get_up_count uuid c = elim (load uuid c) [ some ts ↦ ts.up_counter | none ↦ pos 0 ]

unfoldable pub get_down_count : String → TrafficCounter → ℤ
get_down_count uuid c = elim (load uuid c) [ some ts ↦ ts.down_counter | none ↦ pos 0 ]

unfoldable pub len : TrafficCounter → ℕ
len c = length c

unfoldable pub reset : String → TrafficCounter → TrafficCounter
reset uuid c = elim (load uuid c) [ some ts ↦ store uuid zero_storage c | none ↦ c ]

unfoldable pub delete_counter : String → TrafficCounter → TrafficCounter
delete_counter uuid c = delete uuid c

-- `XrayTrafficCounter.Add`: the new value
unfoldable pub add : ℤ → ℤ → ℤ
add v delta = wrap64 (v +ℤ delta)

-- `Rx` counts bytes down, `Tx` bytes up.
unfoldable pub rx : String → ℤ → TrafficCounter → TrafficCounter
unfolding get_counter add
rx uuid n c =
    let (c', ts) = get_counter uuid c in
    store uuid (record ts { down_counter = add ts.down_counter n }) c'

unfoldable pub tx : String → ℤ → TrafficCounter → TrafficCounter
unfolding get_counter add
tx uuid n c =
    let (c', ts) = get_counter uuid c in
    store uuid (record ts { up_counter = add ts.up_counter n }) c'
