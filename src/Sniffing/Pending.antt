-- ===== src/Sniffing/Pending.antt =====
-- What `Sniff` keeps for the next payload, and what the sniffers for fake addresses add to it.
use kknode.Base.{
  ◌≡◌, ◌≢◌, refl, String, Bool, true, false, ◌||◌, ◌&&◌, not, List, [], ◌∷◌, ◌++◌, some,
  if◌then◌else◌, filter, inl, inr, Bool-cases, ap, ◌∙◌,
}
use kknode.Sniffing.{
  Sniffed, found, no_clue, more_data, other_error, nothing, panics, Network, tcp, udp,
  unknown_network, same_network, ProtocolSniffer, Pass, ended, pending, judge, pass_content,
  conclude, sniff, FakeDns, fake_dns_sniffer, fake_dns_then_others, new_sniffer,
}

-- The sniffer is asked about a payload of the network.
abbrev pub is_asked : Network → ProtocolSniffer → Bool
is_asked network si = not (si.metadata_sniffer || not (same_network si.network network))

abbrev pub is_no_clue : Sniffed → Bool
is_no_clue no_clue = true
is_no_clue o = false

-- the sniffers that have no clue about a payload
abbrev pub clueless : Network → String → List ProtocolSniffer → List ProtocolSniffer
clueless network payload =
    filter (λ si. is_asked network si && is_no_clue (si.sniff (some payload)))

abbrev Leaves : List ProtocolSniffer → Pass → Type 0
Leaves ps (ended o) = o ≢ no_clue
Leaves ps (pending qs) = qs ≡ ps

judge-Leaves :
    (si : ProtocolSniffer) (o : Sniffed) (ps : List ProtocolSniffer) (rest : Pass)
    → Leaves ps rest
    → Leaves (if is_no_clue o then si ∷ ps else ps) (judge si o rest)
unfolding judge
judge-Leaves si (found r) ps rest h = λ e. cc
judge-Leaves si no_clue ps (ended o) h = h
judge-Leaves si no_clue ps (pending qs) h = ap (λ q. si ∷ q) h
judge-Leaves si more_data ps rest h = h
judge-Leaves si other_error ps rest h = h
judge-Leaves si nothing ps rest h = h
judge-Leaves si panics ps rest h = λ e. cc

pass_content-Leaves :
    (ss : List ProtocolSniffer) (payload : String) (network : Network)
    → Leaves (clueless network payload ss) (pass_content ss payload network)
unfolding pass_content
pass_content-Leaves [] payload network = refl
pass_content-Leaves (si ∷ ss) payload network =
    let rest = pass_content-Leaves ss payload network in
    elim (Bool-cases (si.metadata_sniffer || not (same_network si.network network))) [
      | inl e ↦ rw (e, pass_content) rest
      | inr e ↦ rw (e, pass_content) (judge-Leaves si (si.sniff (some payload)) _ _ rest)
    ]

-- Where `Sniff` has no clue, it keeps the sniffers that were asked and had no clue, and only these:
-- those for the other network, those for metadata and those that want more data are dropped.
pub sniff-no_clue :
    (ss : List ProtocolSniffer) (payload : String) (network : Network)
    → (sniff ss payload network).1 ≡ no_clue
    → (sniff ss payload network).0 ≡ clueless network payload ss
unfolding sniff
sniff-no_clue ss payload network =
    concluded (pass_content ss payload network) (pass_content-Leaves ss payload network)
  where
    concluded :
        (p : Pass)
        → Leaves (clueless network payload ss) p
        → (conclude ss p).1 ≡ no_clue
        → (conclude ss p).0 ≡ clueless network payload ss
    concluded (ended o) h e = absurd (h e)
    concluded (pending []) h e = cc
    concluded (pending (p ∷ ps)) h e = h

-- A sniffer for metadata at the end is passed over.
pass_content-append :
    (ss : List ProtocolSniffer) (fake : ProtocolSniffer) (payload : String) (network : Network)
    → fake.metadata_sniffer ≡ true
    → pass_content (ss ++ fake ∷ []) payload network ≡ pass_content ss payload network
unfolding pass_content
pass_content-append [] fake payload network m = rw (m, pass_content) refl
pass_content-append (si ∷ ss) fake payload network m =
    rw (pass_content-append ss fake payload network m) refl

conclude_same : (ss ts : List ProtocolSniffer) (p : Pass) → (conclude ss p).1 ≡ (conclude ts p).1
unfolding conclude
conclude_same ss ts (ended o) = refl
conclude_same ss ts (pending []) = refl
conclude_same ss ts (pending (p ∷ ps)) = refl

-- On a payload of TCP or UDP the sniffers that an engine for fake addresses adds change nothing: the
-- one has metadata for its input, and the other is for no network, so `Sniff` passes over both.
pub sniff-new_sniffer :
    (engine : FakeDns) (target : Network) (others : List ProtocolSniffer) (payload : String)
    (network : Network)
    → network ≢ unknown_network
    → (sniff (new_sniffer (some engine) target others) payload network).1
      ≡ (sniff others payload network).1
unfolding sniff new_sniffer pass_content same_network
sniff-new_sniffer engine target others payload tcp n =
    let fake = fake_dns_sniffer engine target in
    let all = fake_dns_then_others engine fake others ∷ (others ++ fake ∷ []) in
    ap (λ (p : Pass). (conclude all p).1) (pass_content-append others fake payload tcp refl)
    ∙ conclude_same all others (pass_content others payload tcp)
sniff-new_sniffer engine target others payload udp n =
    let fake = fake_dns_sniffer engine target in
    let all = fake_dns_then_others engine fake others ∷ (others ++ fake ∷ []) in
    ap (λ (p : Pass). (conclude all p).1) (pass_content-append others fake payload udp refl)
    ∙ conclude_same all others (pass_content others payload udp)
sniff-new_sniffer engine target others payload unknown_network n = absurd (n refl)
