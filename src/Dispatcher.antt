-- ===== src/Dispatcher.antt =====
-- core/app/dispatcher/default.go: what `getLink` and the first part of `DispatchLink` do for the
-- user of a connection, with the limiter, the link managers and the counters. The ends of a pipe are
-- numbers; a managed writer has the number of the writer in it.
pub mod Routing
pub mod Tracked
use kknode.Base.{ℕ, String, Bool, true, false, List, [], ◌∷◌, Option, none, some, if◌then◌else◌}
use kknode.Base.Int.{ℤ}
use kknode.Base.Eq.{string_eq, ◌==◌}
use kknode.Base.Map.{Map, load, store}
use kknode.Base.Result.{Result, ok, err}
use kknode.Counter.{TrafficCounter, TrafficStorage, new_traffic_counter, get_counter}
use kknode.Limiter.{Registry, Bucket, get_limiter}
use kknode.Limiter.Access.{Verdict, check_limit}
use kknode.Links.{LinkManager, Closed, no_links, add_link}

pub record Dispatcher : Type 0 where
  pub registry : Registry
  pub link_managers : Map String LinkManager
  pub counter : Map String TrafficCounter
  pub closed : Closed

-- the inbound of a session; `user` is the email, `none` for no user
pub record Inbound : Type 0 where
  pub tag : String
  pub user : Option String
  pub ip : String
  pub source_is_tcp : Bool

-- the two pipes of a connection
pub record Pipes : Type 0 where
  pub up_reader : ℕ
  pub up_writer : ℕ
  pub down_reader : ℕ
  pub down_writer : ℕ

pub data LinkError : Type 0 where
  no_limiter rejected : LinkError

-- A writer and what it is wrapped in; a counter is that of an email at a tag.
pub data Writer : Type 0 where
  pipe managed : ℕ → Writer
  rate_limited : Bucket → Writer → Writer
  counted : String → String → Writer → Writer

pub record Link : Type 0 where
  pub reader : ℕ
  pub writer : Writer

abbrev pub limited : Option Bucket → Writer → Writer
limited none w = w
limited (some b) w = rate_limited b w

abbrev pub user_of : Inbound → Option String
user_of s = elim s.user [ none ↦ none | some e ↦ if e == "" then none else some e ]

-- `CheckLimit` changes the limiter that the registry holds.
pub admit :
    Inbound → String → Bool → ℤ → Registry → Result LinkError (Registry × Option Bucket) × Registry
admit s email is_tcp now reg = elim (get_limiter s.tag reg) [
  | none ↦ (err no_limiter, reg)
  | some l ↦
      let v = check_limit l email s.ip is_tcp s.source_is_tcp now in
      let reg' = store s.tag v.state reg in
      if v.reject then (err rejected, reg') else (ok (reg', v.bucket), reg')
]

-- The link manager of the user, a new one where there is none.
abbrev pub manager_of : String → Dispatcher → LinkManager
manager_of email d = elim (load email d.link_managers) [ none ↦ no_links | some m ↦ m ]

-- The counters of the node, with those of the user.
pub with_counter : String → String → Map String TrafficCounter → Map String TrafficCounter
with_counter tag email m =
    let t : TrafficCounter = elim (load tag m) [ none ↦ new_traffic_counter | some t ↦ t ] in
    store tag (get_counter email t).0 m

abbrev pub close_pipes : Pipes → Closed → Closed
close_pipes p c = record {
  writers = p.up_writer ∷ p.down_writer ∷ c.writers;
  readers = p.down_reader ∷ p.up_reader ∷ c.readers;
}

-- `getLink`: the links of the inbound and of the outbound.
unfoldable pub get_link :
    Inbound → Bool → ℤ → Pipes → Dispatcher → Dispatcher × Result LinkError (Link × Link)
unfolding admit with_counter
get_link s is_tcp now p d = elim (user_of s) [
  | none ↦ (
    d,
    ok (
      record { reader = p.down_reader; writer = pipe p.up_writer },
      record { reader = p.up_reader; writer = pipe p.down_writer },
    ),
  )
  | some email ↦
      let (r, reg) = admit s email is_tcp now d.registry in
      let m = add_link p.up_writer p.up_reader (manager_of email d) in
      elim r [
        | err e ↦ (record d { registry = reg; closed = close_pipes p d.closed }, err e)
        | ok (reg', bucket) ↦ (
          record d {
            registry = reg';
            link_managers = store email m d.link_managers;
            counter = with_counter s.tag email d.counter;
          },
          ok (
            record {
              reader = p.down_reader;
              writer = counted s.tag email (limited bucket (managed p.up_writer));
            },
            record {
              reader = p.up_reader;
              writer = counted s.tag email (limited bucket (pipe p.down_writer));
            },
          ),
        )
      ]
]

-- `DispatchLink` as far as the sniffing: the outbound link that it is given, wrapped.
unfoldable pub dispatch_link :
    Inbound → Bool → ℤ → ℕ → ℕ → Dispatcher → Dispatcher × Result LinkError Link
unfolding admit with_counter
dispatch_link s is_tcp now reader writer d = elim (user_of s) [
  | none ↦ (d, ok (record { reader = reader; writer = pipe writer }))
  | some email ↦
      let (r, reg) = admit s email is_tcp now d.registry in
      let closed' : Closed = record {
        writers = writer ∷ d.closed.writers;
        readers = reader ∷ d.closed.readers;
      } in
      elim r [
        | err e ↦ (record d { registry = reg; closed = closed' }, err e)
        | ok (reg', bucket) ↦ (
          record d {
            registry = reg';
            link_managers = store email (manager_of email d) d.link_managers;
            counter = with_counter s.tag email d.counter;
          },
          ok (record {
            reader = reader;
            writer = counted s.tag email (limited bucket (managed writer));
          }),
        )
      ]
]
