-- ===== src/Sniffing.antt =====
-- core/app/dispatcher/sniffer.go and fakednssniffer.go: the sniffers of a connection, and how the
-- code asks them. The sniffers of xray-core for each protocol are functions that are given.
pub mod Reader
pub mod Override
pub mod Concluded
pub mod Ending
pub mod Pending
use kknode.Base.{
  String, Bool, true, false, not, ◌&&◌, ◌||◌, List, [], ◌∷◌, ◌++◌, Option, none, some,
  if◌then◌else◌,
}
use kknode.Base.Eq.{string_eq, ◌==◌}
use kknode.Base.Text.{has_prefix}

-- `SniffResult`
pub data SniffResult : Type 0 where
  -- protocol and domain
  sniffed : String → String → SniffResult
  -- `DNSThenOthersSniffResult`: the domain and the original name
  dns_then_others : String → String → SniffResult
  -- `compositeResult`: the result for the domain and the one for the protocol
  composite : SniffResult → SniffResult → SniffResult

unfoldable pub protocol_of : SniffResult → String
protocol_of (sniffed p d) = p
protocol_of (dns_then_others d o) = "fakedns+others"
protocol_of (composite d p) = protocol_of p

unfoldable pub domain_of : SniffResult → String
domain_of (sniffed p d) = d
domain_of (dns_then_others d o) = d
domain_of (composite d p) = domain_of d

-- the protocol by which a destination is overridden: that of the domain, of a composite
unfoldable pub protocol_for_domain : SniffResult → String
unfolding protocol_of
protocol_for_domain (sniffed p d) = p
protocol_for_domain (dns_then_others d o) = "fakedns+others"
protocol_for_domain (composite d p) = protocol_of d

-- `IsProtoSubsetOf`, which a composite does not have
unfoldable pub is_proto_subset_of : SniffResult → String → Bool
is_proto_subset_of (dns_then_others d o) name = has_prefix name o
is_proto_subset_of r name = false

-- What a sniffer returns: a result, an error, or neither.
pub data Sniffed : Type 0 where
  found : SniffResult → Sniffed
  no_clue more_data other_error nothing : Sniffed
  -- a nil pointer
  panics : Sniffed

pub data Network : Type 0 where
  tcp udp unknown_network : Network

pub same_network : Network → Network → Bool
same_network tcp tcp = true
same_network udp udp = true
same_network unknown_network unknown_network = true
same_network a b = false

-- `protocolSnifferWithMetadata`; a payload of `nil` is `none`
pub record ProtocolSniffer : Type 0 where
  pub sniff : Option String → Sniffed
  pub metadata_sniffer : Bool
  pub network : Network

-- What a pass over the sniffers comes to: an end, or those that may still find something.
pub data Pass : Type 0 where
  ended : Sniffed → Pass
  pending : List ProtocolSniffer → Pass

abbrev pub keep : ProtocolSniffer → Pass → Pass
keep si (ended o) = ended o
keep si (pending ps) = pending (si ∷ ps)

-- One sniffer of the loop that both methods have, by what it returned.
unfoldable pub judge : ProtocolSniffer → Sniffed → Pass → Pass
judge si (found r) rest = ended (found r)
judge si no_clue rest = keep si rest
judge si panics rest = ended panics
judge si o rest = rest

-- the loop of `Sniff`
unfoldable pub pass_content : List ProtocolSniffer → String → Network → Pass
unfolding judge same_network
pass_content [] payload network = pending []
pass_content (si ∷ ss) payload network =
    let rest = pass_content ss payload network in
    if si.metadata_sniffer || not (same_network si.network network)
    then rest
    else judge si (si.sniff (some payload)) rest

-- the loop of `SniffMetadata`
unfoldable pub pass_metadata : List ProtocolSniffer → Pass
unfolding judge
pass_metadata [] = pending []
pass_metadata (si ∷ ss) =
    let rest = pass_metadata ss in
    if not si.metadata_sniffer then keep si rest else judge si (si.sniff none) rest

-- What both methods do after the loop; `other_error` is `errUnknownContent`.
unfoldable pub conclude : List ProtocolSniffer → Pass → List ProtocolSniffer × Sniffed
conclude ss (ended o) = (ss, o)
conclude ss (pending []) = (ss, other_error)
conclude ss (pending (p ∷ ps)) = (p ∷ ps, no_clue)

-- `Sniff`: the sniffers that are kept, and the result
unfoldable pub sniff : List ProtocolSniffer → String → Network → List ProtocolSniffer × Sniffed
unfolding pass_content conclude
sniff ss payload network = conclude ss (pass_content ss payload network)

-- `SniffMetadata`
unfoldable pub sniff_metadata : List ProtocolSniffer → List ProtocolSniffer × Sniffed
unfolding pass_metadata conclude
sniff_metadata ss = conclude ss (pass_metadata ss)

-- `FakeDNSEngine`, with the target of the last outbound put in: the domain of its address, and
-- whether the address lies in the pool, `none` for an engine that does not tell.
pub record FakeDns : Type 0 where
  pub domain : String
  pub in_pool : Option Bool

-- the sniffer that `newFakeDNSSniffer` makes
unfoldable pub fake_dns_sniffer : FakeDns → Network → ProtocolSniffer
unfolding same_network
fake_dns_sniffer engine target = record {
  sniff = λ _.
      if (same_network target tcp || same_network target udp) && not (engine.domain == "")
      then found (sniffed "fakedns" engine.domain)
      else no_clue;
  metadata_sniffer = true;
  network = unknown_network;
}

-- the loop over the other sniffers
pub ask_others : List ProtocolSniffer → Option String → Sniffed
ask_others [] bytes = no_clue
ask_others (v ∷ vs) bytes =
    let rest = ask_others vs bytes in
    if v.metadata_sniffer || not_nil bytes
    then (elim (v.sniff bytes) [
      | found r ↦ found (dns_then_others (domain_of r) (protocol_of r))
      | nothing ↦ panics
      | panics ↦ panics
      | _ ↦ rest
    ])
    else rest
  where
    not_nil : Option String → Bool
    not_nil none = false
    not_nil (some b) = true

-- `newFakeDNSThenOthers`
unfoldable pub fake_dns_then_others :
    FakeDns → ProtocolSniffer → List ProtocolSniffer → ProtocolSniffer
unfolding ask_others
fake_dns_then_others engine fake others = record {
  sniff = λ bytes. elim (fake.sniff bytes) [
    | found r ↦ found r
    | _ ↦ elim engine.in_pool [
      | none ↦ no_clue
      | some inside ↦ if inside then ask_others others bytes else no_clue
    ]
  ];
  metadata_sniffer = false;
  network = unknown_network;
}

-- `NewSniffer`: the sniffers of xray-core for HTTP, TLS, BitTorrent, QUIC and uTP in their order,
-- behind those of an engine for fake addresses where there is one.
unfoldable pub new_sniffer : Option FakeDns → Network → List ProtocolSniffer → List ProtocolSniffer
unfolding fake_dns_sniffer fake_dns_then_others
new_sniffer none target others = others
new_sniffer (some engine) target others =
    let fake = fake_dns_sniffer engine target in
    fake_dns_then_others engine fake others ∷ (others ++ fake ∷ [])
