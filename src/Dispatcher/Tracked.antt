-- ===== src/Dispatcher/Tracked.antt =====
-- Which links the link manager of a user knows.
use kknode.Base.{ℕ, String, ◌≡◌, refl, ap, ◌∙◌, Bool, true, Option, some}
use kknode.Base.Int.{ℤ}
use kknode.Base.Eq.{string_eq, nat_eq, beq_refl}
use kknode.Base.Map.{load, store, load-store}
use kknode.Base.Result.{Result, ok, err}
use kknode.Limiter.{Registry, Bucket}
use kknode.Links.{LinkManager, Closed, add_link, close_all, has, close_all_lem}
use kknode.Dispatcher.{
  Dispatcher, Inbound, Pipes, Link, LinkError, user_of, admit, manager_of, get_link, dispatch_link,
}

get_link-ok :
    (s : Inbound) (is_tcp : Bool) (now : ℤ) (p : Pipes) (d : Dispatcher) (email : String)
    (links : Link × Link)
    → user_of s ≡ some email
    → (get_link s is_tcp now p d).1 ≡ ok links
    → (get_link s is_tcp now p d).0.link_managers
      ≡ store email (add_link p.up_writer p.up_reader (manager_of email d)) d.link_managers
unfolding get_link
get_link-ok s is_tcp now p d email links u h = go (admit s email is_tcp now d.registry) refl h
  where
    go :
        (r : Result LinkError (Registry × Option Bucket) × Registry)
        → admit s email is_tcp now d.registry ≡ r
        → (get_link s is_tcp now p d).1 ≡ ok links
        → (get_link s is_tcp now p d).0.link_managers
          ≡ store email (add_link p.up_writer p.up_reader (manager_of email d)) d.link_managers
    go (err x, reg) e = rw (u, get_link, e) (λ h. cc)
    go (ok (reg', b), reg) e = rw (u, get_link, e) (λ h. refl)

manager_of-store :
    (email : String) (m : LinkManager) (d d' : Dispatcher)
    → d'.link_managers ≡ store email m d.link_managers
    → manager_of email d' ≡ m
manager_of-store email m d d' h =
    rw (h, manager_of) (rw (load-store email email m d.link_managers, beq_refl email) refl)

dispatch_link-ok :
    (s : Inbound) (is_tcp : Bool) (now : ℤ) (r w : ℕ) (d : Dispatcher) (email : String)
    (link : Link)
    → user_of s ≡ some email
    → (dispatch_link s is_tcp now r w d).1 ≡ ok link
    → (dispatch_link s is_tcp now r w d).0.link_managers
      ≡ store email (manager_of email d) d.link_managers
unfolding dispatch_link
dispatch_link-ok s is_tcp now r w d email link u h = go (admit s email is_tcp now d.registry) refl h
  where
    go :
        (a : Result LinkError (Registry × Option Bucket) × Registry)
        → admit s email is_tcp now d.registry ≡ a
        → (dispatch_link s is_tcp now r w d).1 ≡ ok link
        → (dispatch_link s is_tcp now r w d).0.link_managers
          ≡ store email (manager_of email d) d.link_managers
    go (err x, reg) e = rw (u, dispatch_link, e) (λ h. cc)
    go (ok (reg', b), reg) e = rw (u, dispatch_link, e) (λ h. refl)

add_link-load : (w r : ℕ) (m : LinkManager) → load w (add_link w r m).links ≡ some r
unfolding add_link
add_link-load w r m = rw (load-store w w r m.links, beq_refl w) refl

-- A connection of a user that `getLink` accepts is in the user's link manager, so that `CloseAll`
-- closes its uplink writer and interrupts the reader behind it. One that `DispatchLink` accepts is
-- not: the links of the user's manager are those from before.
pub get_link-dispatch_link-links :
    (s : Inbound) (is_tcp : Bool) (now : ℤ) (p : Pipes) (d : Dispatcher) (email : String)
    → user_of s ≡ some email
    → ((links : Link × Link)
        → (get_link s is_tcp now p d).1 ≡ ok links
        → let m = manager_of email (get_link s is_tcp now p d).0 in
          (load p.up_writer m.links ≡ some p.up_reader)
          × ((c : Closed)
              → (has p.up_writer (close_all m c).1.writers ≡ true)
                × (has p.up_reader (close_all m c).1.readers ≡ true)))
      × ((r w : ℕ) (link : Link)
          → (dispatch_link s is_tcp now r w d).1 ≡ ok link
          → (manager_of email (dispatch_link s is_tcp now r w d).0).links
            ≡ (manager_of email d).links)
get_link-dispatch_link-links s is_tcp now p d email u = (
  (λ links h.
      let m = manager_of email (get_link s is_tcp now p d).0 in
      let e =
        manager_of-store email (add_link p.up_writer p.up_reader (manager_of email d)) d
          (get_link s is_tcp now p d).0 (get_link-ok s is_tcp now p d email links u h) in
      let there : load p.up_writer m.links ≡ some p.up_reader =
        ap (λ n. load p.up_writer n.links) e
        ∙ add_link-load p.up_writer p.up_reader (manager_of email d) in
      (there, λ c. (close_all_lem m c p.up_writer).1 p.up_reader there)),
  (λ r w link h.
      ap (λ n. n.links)
        (manager_of-store email (manager_of email d) d (dispatch_link s is_tcp now r w d).0
          (dispatch_link-ok s is_tcp now r w d email link u h))),
)
