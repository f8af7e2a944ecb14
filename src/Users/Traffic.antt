-- ===== src/Users/Traffic.antt =====
-- `GetUserTrafficSlice`: what it reports, and what it leaves in the counters.
use kknode.Base.{
  String, ◌≡◌, refl, ◌∙◌, ◌≢◌, Bool, false, List, [], ◌∷◌, inl, inr, ap, none, some, if◌then◌else◌,
  arith, All, Bool-cases, Option-cases,
}
use kknode.Base.Int.{
  ℤ, pos, pos_part, neg_part, eqb_ℤ, ◌+ℤ◌, ◌*ℤ◌, wrap64, int_eq, ◌≤ℤ◌, ◌<ℤ◌, int_laws,
}
use kknode.Base.Eq.{string_eq, beq_refl}
use kknode.Base.Map.{Map, load, load_or, store, load-store}
use kknode.Counter.{TrafficCounter, zero_storage}
use kknode.Panel.{UserTraffic}
use kknode.Users.{Core, is_due, slice_counters, get_user_traffic_slice}

-- The bytes of the users with a uid.
pub up_total : Map String ℤ → TrafficCounter → ℤ
up_total uids [] = pos 0
up_total uids ((email, ts) ∷ c) =
    (if eqb_ℤ (load_or (pos 0) email uids) (pos 0) then pos 0 else ts.up_counter) +ℤ up_total uids c

pub down_total : Map String ℤ → TrafficCounter → ℤ
down_total uids [] = pos 0
down_total uids ((email, ts) ∷ c) =
    (if eqb_ℤ (load_or (pos 0) email uids) (pos 0) then pos 0 else ts.down_counter)
    +ℤ down_total uids c

-- the bytes of a report
pub upload_sum : List UserTraffic → ℤ
upload_sum [] = pos 0
upload_sum (t ∷ ts) = t.upload +ℤ upload_sum ts

pub download_sum : List UserTraffic → ℤ
download_sum [] = pos 0
download_sum (t ∷ ts) = t.download +ℤ download_sum ts

abbrev Conserves : Map String ℤ → TrafficCounter → TrafficCounter × List UserTraffic → Type 0
Conserves uids c r =
    (up_total uids c ≡ up_total uids r.0 +ℤ upload_sum r.1)
    × (down_total uids c ≡ down_total uids r.0 +ℤ download_sum r.1)

-- Where an entry is kept, sent or of no user, the sums still agree.
sum_kept : (x u u' s : ℤ) → u ≡ u' +ℤ s → x +ℤ u ≡ x +ℤ u' +ℤ s
sum_kept x u u' s e = omega (int_laws, ap pos_part e, ap neg_part e)

sum_sent : (x z u u' s : ℤ) → z ≡ pos 0 → u ≡ u' +ℤ s → x +ℤ u ≡ z +ℤ u' +ℤ (x +ℤ s)
sum_sent x z u u' s h e =
    omega (int_laws, ap pos_part h, ap neg_part h, ap pos_part e, ap neg_part e)

sum_gone : (u u' s : ℤ) → u ≡ u' +ℤ s → pos 0 +ℤ u ≡ u' +ℤ s
sum_gone u u' s e = omega (int_laws, ap pos_part e, ap neg_part e)

same : (b : Bool) → (if b then pos 0 else pos 0) ≡ pos 0
same b = ground arith

zero_sum : pos 0 ≡ pos 0 +ℤ pos 0
unfolding ◌+ℤ◌
zero_sum = refl

slice_counters-Conserves :
    (uids : Map String ℤ) (m : ℤ) (c : TrafficCounter) → Conserves uids c (slice_counters uids m c)
unfolding slice_counters up_total down_total upload_sum download_sum
slice_counters-Conserves uids m [] = (zero_sum, zero_sum)
slice_counters-Conserves uids m ((email, ts) ∷ c) =
    let ih = slice_counters-Conserves uids m c in
    let uid = load_or (pos 0) email uids in
    elim (Bool-cases (is_due m ts)) [
      | inr e ↦ rw e (sum_kept _ _ _ _ ih.0, sum_kept _ _ _ _ ih.1)
      | inl e ↦ elim (Bool-cases (eqb_ℤ uid (pos 0))) [
        | inl z ↦ rw (e, z) (sum_gone _ _ _ ih.0, sum_gone _ _ _ ih.1)
        | inr nz ↦
            rw (e, nz)
              (
                sum_sent _ _ _ _ _ (same (eqb_ℤ uid (pos 0))) ih.0,
                sum_sent _ _ _ _ _ (same (eqb_ℤ uid (pos 0))) ih.1,
              )
      ]
    ]

-- Every report is of a user with a uid, and over the threshold.
abbrev pub IsReport : ℤ → UserTraffic → Type 0
IsReport m t = (t.uid ≢ pos 0) × (wrap64 (m *ℤ pos 1000) <ℤ wrap64 (t.upload +ℤ t.download))

slice_counters-IsReport :
    (uids : Map String ℤ) (m : ℤ) (c : TrafficCounter)
    → All (IsReport m) (slice_counters uids m c).1
unfolding slice_counters is_due
slice_counters-IsReport uids m [] = tt
slice_counters-IsReport uids m ((email, ts) ∷ c) =
    ground
      (arith, slice_counters-IsReport uids m c, int_eq.beq_iff (load_or (pos 0) email uids) (pos 0))

-- Nothing is over a threshold that is not negative once it was reported.
zero_not_due : (m : ℤ) → pos 0 ≤ℤ wrap64 (m *ℤ pos 1000) → is_due m zero_storage ≡ false
unfolding is_due ◌+ℤ◌ wrap64
zero_not_due m h = ground arith

slice_counters_again :
    (uids : Map String ℤ) (m : ℤ) (c : TrafficCounter)
    → pos 0 ≤ℤ wrap64 (m *ℤ pos 1000)
    → slice_counters uids m (slice_counters uids m c).0 ≡ ((slice_counters uids m c).0, [])
unfolding slice_counters
slice_counters_again uids m [] h = refl
slice_counters_again uids m ((email, ts) ∷ c) h =
    ground (arith, slice_counters_again uids m c h, zero_not_due m h)

-- the counters of a node, none if the node has none
unfoldable pub counters_of : {H : Type 0} → String → Core H → TrafficCounter
counters_of tag v = elim (load tag v.counter) [ none ↦ [] | some c ↦ c ]

pub counters_of-none :
    {H : Type 0} (tag : String) (v : Core H) → load tag v.counter ≡ none → counters_of tag v ≡ []
unfolding counters_of
counters_of-none tag v e = rw (e, counters_of) refl

pub counters_of-some :
    {H : Type 0} (tag : String) (v : Core H) (c : TrafficCounter)
    → load tag v.counter ≡ some c
    → counters_of tag v ≡ c
unfolding counters_of
counters_of-some tag v c e = rw (e, counters_of) refl

slice-none :
    {H : Type 0} (tag : String) (m : ℤ) (v : Core H)
    → load tag v.counter ≡ none
    → get_user_traffic_slice tag m v ≡ (v, [])
unfolding get_user_traffic_slice
slice-none tag m v e = rw (e, get_user_traffic_slice) refl

slice-some :
    {H : Type 0} (tag : String) (m : ℤ) (v : Core H) (c : TrafficCounter)
    → load tag v.counter ≡ some c
    → let s = slice_counters v.uid_map m c in
      get_user_traffic_slice tag m v ≡ (record v { counter = store tag s.0 v.counter }, s.1)
unfolding get_user_traffic_slice
slice-some tag m v c e = rw (e, get_user_traffic_slice) refl

keep-nil : (uids : Map String ℤ) → up_total uids [] ≡ up_total uids [] +ℤ upload_sum []
unfolding up_total upload_sum
keep-nil uids = zero_sum

keep_down-nil : (uids : Map String ℤ) → down_total uids [] ≡ down_total uids [] +ℤ download_sum []
unfolding down_total download_sum
keep_down-nil uids = zero_sum

-- No byte of a user with a uid is lost: what the counters of the node held before is what they
-- hold after and what is reported, up and down. Each report is of a user with a uid whose traffic
-- is over the threshold. A second call finds nothing to report, if the threshold is not negative.
pub get_user_traffic_slice_lem :
    {H : Type 0} (tag : String) (m : ℤ) (v : Core H)
    → let (v', out) = get_user_traffic_slice tag m v in
      (up_total v.uid_map (counters_of tag v)
        ≡ up_total v.uid_map (counters_of tag v') +ℤ upload_sum out)
      × (down_total v.uid_map (counters_of tag v)
          ≡ down_total v.uid_map (counters_of tag v') +ℤ download_sum out)
      × All (IsReport m) out
      × (pos 0 ≤ℤ wrap64 (m *ℤ pos 1000) → (get_user_traffic_slice tag m v').1 ≡ [])
get_user_traffic_slice_lem {H} tag m v = elim (Option-cases (load tag v.counter)) [
  | inl e ↦
      let n = counters_of-none tag v e in
      rw (slice-none tag m v e, n)
        (keep-nil v.uid_map, keep_down-nil v.uid_map, tt, λ h. ap (λ p. p.1) (slice-none tag m v e))
  | inr (c, e) ↦
      let s = slice_counters v.uid_map m c in
      let v' : Core H = record v { counter = store tag s.0 v.counter } in
      let e' : load tag v'.counter ≡ some s.0 =
        rw (load-store tag tag s.0 v.counter, beq_refl tag) refl in
      let con = slice_counters-Conserves v.uid_map m c in
      rw (slice-some tag m v c e, counters_of-some tag v c e, counters_of-some tag v' s.0 e')
        (
          con.0,
          con.1,
          slice_counters-IsReport v.uid_map m c,
          λ h.
              ap (λ p. p.1) (slice-some tag m v' s.0 e')
              ∙ ap (λ p. p.1) (slice_counters_again v.uid_map m c h),
        )
]
