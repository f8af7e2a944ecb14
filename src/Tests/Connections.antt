-- ===== src/Tests/Connections.antt =====
-- A connection through core/app/dispatcher/default.go.
use kknode.Base.{ℕ, ◌≡◌, refl, true, [], ◌∷◌, some}
use kknode.Base.Int.{pos}
use kknode.Base.Eq.{string_eq, nat_eq}
use kknode.Base.Map.{load}
use kknode.Base.Result.{ok}
use kknode.Limiter.{new_limiter}
use kknode.Links.{Closed, close_all, has}
use kknode.Dispatcher.{Dispatcher, Inbound, Pipes, Link, manager_of, get_link, dispatch_link}
use kknode.Dispatcher.Tracked.{get_link-dispatch_link-links}
use kknode.Tests.Accounting.{alice, bob}

abbrev dispatcher : Dispatcher
dispatcher = record {
  registry = ("n", new_limiter "n" (alice ∷ bob ∷ []) []) ∷ [];
  link_managers = [];
  counter = [];
  closed = record { writers = []; readers = [] };
}

abbrev session : Inbound
session = record { tag = "n"; user = some "n|a"; ip = "1.1.1.1"; source_is_tcp = true }

abbrev pipes : Pipes
pipes = record { up_reader = 1; up_writer = 2; down_reader = 3; down_writer = 4 }

get_link-dispatch_link-links_example :
    ((links : Link × Link)
      → (get_link session true (pos 0) pipes dispatcher).1 ≡ ok links
      → let m = manager_of "n|a" (get_link session true (pos 0) pipes dispatcher).0 in
        (load 2 m.links ≡ some 1)
        × ((c : Closed)
            → (has 2 (close_all m c).1.writers ≡ true) × (has 1 (close_all m c).1.readers ≡ true)))
    × ((r w : ℕ) (link : Link)
        → (dispatch_link session true (pos 0) r w dispatcher).1 ≡ ok link
        → (manager_of "n|a" (dispatch_link session true (pos 0) r w dispatcher).0).links
          ≡ (manager_of "n|a" dispatcher).links)
get_link-dispatch_link-links_example =
    get_link-dispatch_link-links session true (pos 0) pipes dispatcher "n|a" refl
