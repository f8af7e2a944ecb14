-- ===== src/Sniffing/Ending.antt =====
-- The loop of `sniffer` ends, and no byte that it has read is lost.
use kknode.Base.{
  ℕ, zero, suc, ◌+◌, ◌-◌, ◌≤◌, ◌<◌, ◌≡◌, ◌≢◌, refl, String, Bool, true, false, ◌||◌, List, [], ◌∷◌,
  Option, none, some, if◌then◌else◌, leb, ◌==◌ as eq_ℕ, arith, if-elim, ap, sym, ◌∙◌, subst,
}
use Prim.Native.String
use kknode.Base.Eq.{string_eq, ◌==◌}
use text.Mathlib.TextLemmas.{append-nil}
use kknode.Base.Text.{concat}
use kknode.Sniffing.{
  SniffResult, sniff_metadata, Sniffed, no_clue, more_data, Network, ProtocolSniffer, sniff,
}
use kknode.Sniffing.Reader.{
  Read, done, failed, taken, CachedReader, new_reader, cache_bytes, read_internal, Round, returns,
  goes_on, attempt, round, Content, sniff_content, cache_deadline, sniffer, combine, result_of,
  content_result,
}
use kknode.Sniffing.Concluded.{sniff-ne-more_data}

-- A round that goes on has counted an attempt.
attempt_counts :
    (total n : ℕ) (r : List ProtocolSniffer × Sniffed) {ss' : List ProtocolSniffer}
    → r.1 ≢ more_data
    → attempt total r ≡ goes_on n ss'
    → n ≡ total + 1
unfolding attempt
attempt_counts total n (ss, Sniffed.found r) h e = cc
attempt_counts total n (ss, no_clue) h e = ground arith
attempt_counts total n (ss, more_data) h e = absurd (h refl)
attempt_counts total n (ss, Sniffed.other_error) h e = cc
attempt_counts total n (ss, Sniffed.nothing) h e = cc
attempt_counts total n (ss, Sniffed.panics) h e = cc

round_counts :
    (total n : ℕ) (ss : List ProtocolSniffer) (payload : String) (network : Network)
    {ss' : List ProtocolSniffer}
    → round total ss payload network ≡ goes_on n ss'
    → n ≡ total + 1
unfolding round
round_counts total n ss payload network {ss'} =
    if-elim (λ (r : Round). r ≡ goes_on n ss' → n ≡ total + 1) (payload == "")
      (goes_on (total + 1) ss) (attempt total (sniff ss payload network)) (λ _ e. ground arith)
      (λ _ e. attempt_counts total n _ (sniff-ne-more_data ss payload network) e)

-- the bytes of a read
abbrev pub bytes_of : Read → String
bytes_of done = ""
bytes_of failed = ""
bytes_of (taken t bytes) = bytes

module _ (link : ℕ → Read) where
  -- the bytes of the first reads, in order
  abbrev pub bytes_before : ℕ → String
  bytes_before zero = ""
  bytes_before (suc n) = concat (bytes_before n ∷ bytes_of (link n) ∷ [])

  -- The cache holds what was read.
  abbrev HasAll : CachedReader → Type 0
  HasAll r = r.cache ≡ bytes_before r.reads

  -- The loop ends with such a reader, after so many reads at most.
  abbrev Ends : ℕ → Option (CachedReader × Content) → Type 0
  Ends bound o =
      (out : CachedReader × Content) × (o ≡ some out) × HasAll out.0 × (out.0.reads ≤ bound)

  module _ (capacity : ℕ) (network : Network) where
    -- One round, where the rounds after it end if there is one more attempt to make.
    round-Ends :
        (total deadline bound : ℕ) (r : CachedReader) (next : Round)
        (rest : ℕ → List ProtocolSniffer → Option (CachedReader × Content))
        → HasAll r
        → r.reads ≤ bound
        → ((n : ℕ) (ss : List ProtocolSniffer)
            → next ≡ goes_on n ss
            → n < 2
            → Ends bound (rest n ss))
        → Ends bound (elim next [
          | returns o ↦ some (r, Content.result o)
          | goes_on n ss ↦
              if leb 2 n || eq_ℕ deadline 0 then some (r, Content.sniffing_timeout) else rest n ss
        ])
    round-Ends total deadline bound r (returns o) rest all few goes =
        ((r, Content.result o), refl, all, few)
    round-Ends total deadline bound r (goes_on n ss) rest all few goes =
        if-elim (Ends bound) (leb 2 n || eq_ℕ deadline 0) (some (r, Content.sniffing_timeout))
          (rest n ss) (λ _. ((r, Content.sniffing_timeout), refl, all, few))
          (λ e. goes n ss refl (ground arith))

    sniff_content-Ends :
        (fuel total deadline : ℕ) (ss : List ProtocolSniffer) (r : CachedReader)
        → 2 ≤ fuel + total
        → total < 2
        → HasAll r
        → Ends (r.reads + fuel) (sniff_content link capacity network fuel total deadline ss r)
    unfolding sniff_content cache_bytes
    sniff_content-Ends zero total deadline ss r enough low all = absurd (omega arith)
    sniff_content-Ends (suc fuel) total deadline ss r enough low all =
        go (link r.reads) refl (sniff_content-Ends fuel)
      where
        as_read :
            (x : Read)
            → link r.reads ≡ x
            → String.◌++◌ (bytes_before r.reads) (bytes_of x)
              ≡ String.◌++◌ (bytes_before r.reads) (bytes_of (link r.reads))
        as_read x e = ap (λ y. String.◌++◌ (bytes_before r.reads) (bytes_of y)) (sym e)

        after : String → CachedReader
        after bytes = (cache_bytes capacity bytes r).0

        go :
            (x : Read)
            → link r.reads ≡ x
            → ((total deadline : ℕ) (ss : List ProtocolSniffer) (r : CachedReader)
                → 2 ≤ fuel + total
                → total < 2
                → HasAll r
                → Ends
                    (r.reads + fuel)
                    (sniff_content link capacity network fuel total deadline ss r))
            → Ends (r.reads + suc fuel) (elim x [
              | done ↦ some (r, Content.context_done)
              | failed ↦ some (record r { reads = suc r.reads }, Content.read_error)
              | taken elapsed bytes ↦
                  let (r', payload) = cache_bytes capacity bytes r in
                  elim (round total ss payload network) [
                    | returns o ↦ some (r', Content.result o)
                    | goes_on total' ss' ↦
                        if leb 2 total' || eq_ℕ (deadline - elapsed) 0
                        then some (r', Content.sniffing_timeout)
                        else sniff_content link capacity network fuel total'
                            (deadline - elapsed)
                            ss'
                            r'
                  ]
            ])
        go done e later = ((r, Content.context_done), refl, all, omega arith)
        go failed e later = (
          (record r { reads = suc r.reads }, Content.read_error),
          refl,
          all ∙ sym (append-nil (bytes_before r.reads)) ∙ as_read failed e,
          omega arith,
        )
        go (taken elapsed bytes) e later =
            let payload = (cache_bytes capacity bytes r).1 in
            let all' : HasAll (after bytes) =
              ap (λ s. String.◌++◌ s bytes) all ∙ as_read (taken elapsed bytes) e in
            round-Ends total (deadline - elapsed) (r.reads + suc fuel) (after bytes)
              (round total ss payload network)
              (λ n ss'.
                sniff_content link capacity network fuel n (deadline - elapsed) ss' (after bytes))
              all' (omega arith)
              (λ n ss' g low'.
                let n_is = round_counts total n ss payload network g in
                subst
                  (λ (b : ℕ). Ends b (
                    sniff_content link capacity network fuel n (deadline - elapsed) ss'
                      (after bytes)))
                  (omega arith)
                  (later n (deadline - elapsed) ss' (after bytes) (omega arith) low' all'))

-- What a read of the cache gives and leaves.
abbrev Given : CachedReader → CachedReader × Option String → Type 0
Given r q =
    ((elim q.1 [ none ↦ "" | some bytes ↦ bytes ]) ≡ r.cache)
    × (q.0.cache ≡ "")
    × (q.0.reads ≡ r.reads)

-- What is in the cache is given once.
read_internal_lem :
    (r : CachedReader)
    → ((elim (read_internal r).1 [ none ↦ "" | some bytes ↦ bytes ]) ≡ r.cache)
      × ((read_internal r).0.cache ≡ "")
      × ((read_internal r).0.reads ≡ r.reads)
unfolding read_internal
read_internal_lem r =
    if-elim (Given r) (r.cache == "") (r, none) (record r { cache = "" }, some r.cache)
      (λ t. let is = (string_eq.beq_iff r.cache "").0 t in (sym is, is, refl))
      (λ _. (refl, refl, refl))

-- `sniffer` returns, whatever the link gives and however long the reads take: its loop needs no more
-- than two reads, since `Sniff` never asks for more data. What is then read from the connection
-- begins with all the bytes of these reads, in order, and they are given once.
pub sniffer_lem :
    (link : ℕ → Read) (capacity : ℕ) (metadata_only : Bool) (network : Network)
    (sniffers : List ProtocolSniffer)
    → (out : CachedReader × Option SniffResult) × (sniffer link capacity metadata_only network
          sniffers
        ≡ some out)
      × (out.0.reads ≤ 2)
      × ((elim (read_internal out.0).1 [ none ↦ "" | some bytes ↦ bytes ])
          ≡ bytes_before link out.0.reads)
      × ((read_internal out.0).0.cache ≡ "")
      × ((read_internal out.0).0.reads ≡ out.0.reads)
unfolding sniffer read_internal
sniffer_lem link capacity true network sniffers =
    ((new_reader, result_of (sniff_metadata sniffers).1), refl, omega arith, refl, refl, refl)
sniffer_lem link capacity false network sniffers =
    let (ss, o) = sniff_metadata sniffers in
    let ((r, c), ends, all, few) =
      sniff_content-Ends link capacity network 2 0 cache_deadline ss new_reader (omega arith)
        (omega arith) refl in
    let (drained, empty, same) = read_internal_lem r in
    ((r, combine (result_of o) (content_result c)), ap finish ends, few, drained ∙ all, empty, same)
  where
    finish : Option (CachedReader × Content) → Option (CachedReader × Option SniffResult)
    finish x = elim x [
      | none ↦ none
      | some (r, c) ↦ some (r, combine (result_of (sniff_metadata sniffers).1) (content_result c))
    ]
