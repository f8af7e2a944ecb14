-- ===== src/Sniffing/Concluded.antt =====
-- `Sniff` returns a result or an error, never that more data are needed.
use kknode.Base.{◌≢◌, String, ◌||◌, not, List, [], ◌∷◌, some, if-elim}
use kknode.Base.Eq.{string_eq}
use kknode.Sniffing.{
  Sniffed, no_clue, more_data, Network, ProtocolSniffer, Pass, ended, pending, judge, pass_content,
  conclude, sniff, same_network,
}

-- `Sniff` never returns that more data are needed.
IsConclusion : Pass → Type 0
IsConclusion (ended o) = o ≢ more_data
IsConclusion (pending ps) = Unit

judge-IsConclusion :
    (si : ProtocolSniffer) (o : Sniffed) (rest : Pass)
    → IsConclusion rest
    → IsConclusion (judge si o rest)
unfolding judge IsConclusion
judge-IsConclusion si (Sniffed.found r) rest h = λ e. cc
judge-IsConclusion si no_clue (ended o) h = h
judge-IsConclusion si no_clue (pending ps) h = tt
judge-IsConclusion si more_data rest h = h
judge-IsConclusion si Sniffed.other_error rest h = h
judge-IsConclusion si Sniffed.nothing rest h = h
judge-IsConclusion si Sniffed.panics rest h = λ e. cc

pass_content-IsConclusion :
    (ss : List ProtocolSniffer) (payload : String) (network : Network)
    → IsConclusion (pass_content ss payload network)
unfolding pass_content IsConclusion
pass_content-IsConclusion [] payload network = tt
pass_content-IsConclusion (si ∷ ss) payload network =
    let rest = pass_content-IsConclusion ss payload network in
    if-elim IsConclusion (si.metadata_sniffer || not (same_network si.network network))
      (pass_content ss payload network)
      (judge si (si.sniff (some payload)) (pass_content ss payload network)) (λ _. rest)
      (λ _. judge-IsConclusion si (si.sniff (some payload)) _ rest)

pub sniff-ne-more_data :
    (ss : List ProtocolSniffer) (payload : String) (network : Network)
    → (sniff ss payload network).1 ≢ more_data
unfolding sniff IsConclusion
sniff-ne-more_data ss payload network =
    concluded (pass_content ss payload network) (pass_content-IsConclusion ss payload network)
  where
    concluded : (p : Pass) → IsConclusion p → (conclude ss p).1 ≢ more_data
    concluded (ended o) h = h
    concluded (pending []) h = λ e. cc
    concluded (pending (p ∷ ps)) h = λ e. cc
