-- ===== src/Sniffing/Reader.antt =====
-- core/app/dispatcher/default.go: the reader that keeps what the sniffing has read, and the function
-- `sniffer`. Texts of bytes stand for the buffers. What the link and the context give is a sequence
-- of reads; time is in nanoseconds, and a deadline that has passed is 0.
use kknode.Base.{
  ℕ, zero, suc, ◌+◌, ◌-◌, String, Bool, ◌||◌, List, [], ◌∷◌, Option, none, some, if◌then◌else◌, leb,
  ◌==◌ as eq_ℕ,
}
use kknode.Base.Eq.{string_eq, ◌==◌}
use kknode.Base.Text.{concat}
use kknode.Sniffing.{
  SniffResult, composite, Sniffed, found, no_clue, more_data, Network, ProtocolSniffer, sniff,
  sniff_metadata,
}

-- What one round of the loop meets: a context that is done, an error of the reader, or bytes, after
-- some time.
pub data Read : Type 0 where
  done : Read
  failed : Read
  taken : ℕ → String → Read

-- `cachedReader`, with the number of reads that it has made
pub record CachedReader : Type 0 where
  pub cache : String
  pub reads : ℕ

abbrev pub new_reader : CachedReader
new_reader = record { cache = ""; reads = 0 }

-- the first bytes, as many as the buffer holds
prefix : ℕ → String → String
prefix zero s = ""
prefix (suc n) String.[] = ""
prefix (suc n) (String.◌∷◌ c s) = String.◌∷◌ c (prefix n s)

-- `Cache` for bytes that were read: the reader, and what the payload holds
unfoldable pub cache_bytes : ℕ → String → CachedReader → CachedReader × String
unfolding prefix
cache_bytes capacity bytes r =
    let cache' = concat (r.cache ∷ bytes ∷ []) in
    (record { cache = cache'; reads = suc r.reads }, prefix capacity cache')

-- `readInternal`, with `none` for nothing in the cache
unfoldable pub read_internal : CachedReader → CachedReader × Option String
read_internal r = if r.cache == "" then (r, none) else (record r { cache = "" }, some r.cache)

-- `ReadMultiBuffer` and `ReadMultiBufferTimeout`: the cache first, then the link
unfoldable pub read_multi_buffer : (ℕ → Read) → CachedReader → CachedReader × Option String
unfolding read_internal
read_multi_buffer link r =
    let (r', cached) = read_internal r in
    elim cached [
      | some bytes ↦ (r', some bytes)
      | none ↦ elim (link r.reads) [
        | done ↦ (record r { reads = suc r.reads }, none)
        | failed ↦ (record r { reads = suc r.reads }, none)
        | taken t bytes ↦ (record r { reads = suc r.reads }, some bytes)
      ]
    ]

-- How a round of the loop goes on: it returns, or it has so many attempts.
pub data Round : Type 0 where
  returns : Sniffed → Round
  goes_on : ℕ → List ProtocolSniffer → Round

-- the `switch` on the error
unfoldable pub attempt : ℕ → List ProtocolSniffer × Sniffed → Round
attempt total (ss, no_clue) = goes_on (total + 1) ss
attempt total (ss, more_data) = goes_on total ss
attempt total (ss, o) = returns o

unfoldable pub round : ℕ → List ProtocolSniffer → String → Network → Round
unfolding attempt
round total ss payload network =
    if payload == "" then goes_on (total + 1) ss else attempt total (sniff ss payload network)

-- How the loop ends.
pub data Content : Type 0 where
  result : Sniffed → Content
  context_done read_error sniffing_timeout : Content

module _ (link : ℕ → Read) (capacity : ℕ) (network : Network) where
  -- The loop of `sniffer` on the content; `none` where the rounds run out.
  unfoldable pub sniff_content :
      ℕ → ℕ → ℕ → List ProtocolSniffer → CachedReader → Option (CachedReader × Content)
  unfolding round cache_bytes
  sniff_content zero total deadline ss r = none
  sniff_content (suc fuel) total deadline ss r = elim (link r.reads) [
    | done ↦ some (r, context_done)
    | failed ↦ some (record r { reads = suc r.reads }, read_error)
    | taken elapsed bytes ↦
        let (r', payload) = cache_bytes capacity bytes r in
        elim (round total ss payload network) [
          | returns o ↦ some (r', result o)
          | goes_on total' ss' ↦
              let rest = sniff_content fuel total' (deadline - elapsed) ss' r' in
              if leb 2 total' || eq_ℕ (deadline - elapsed) 0
              then some (r', sniffing_timeout)
              else rest
        ]
  ]

abbrev pub cache_deadline : ℕ
cache_deadline = 200000000

abbrev pub result_of : Sniffed → Option SniffResult
result_of (found r) = some r
result_of o = none

abbrev pub content_result : Content → Option SniffResult
content_result (result o) = result_of o
content_result e = none

-- the results of the metadata and of the content, put together; `none` is an error
abbrev pub combine : Option SniffResult → Option SniffResult → Option SniffResult
combine (some m) none = some m
combine (some m) (some c) = some (composite m c)
combine none c = c

-- `sniffer`, whose loop has two rounds at most
unfoldable pub sniffer :
    (ℕ → Read)
    → ℕ
    → Bool
    → Network
    → List ProtocolSniffer
    → Option (CachedReader × Option SniffResult)
unfolding sniff_content sniff_metadata
sniffer link capacity metadata_only network sniffers =
    let (ss, o) = sniff_metadata sniffers in
    if metadata_only
    then some (new_reader, result_of o)
    else (elim (sniff_content link capacity network 2 0 cache_deadline ss new_reader) [
      | none ↦ none
      | some (r, c) ↦ some (r, combine (result_of o) (content_result c))
    ])
