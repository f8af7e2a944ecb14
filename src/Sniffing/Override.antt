-- ===== src/Sniffing/Override.antt =====
-- core/app/dispatcher/default.go: the destination of a connection after the sniffing.
use kknode.Base.{
  ℕ, String, Bool, true, false, not, ◌&&◌, ◌||◌, List, [], ◌∷◌, Option, none, some, if◌then◌else◌,
}
use kknode.Base.Eq.{string_eq, ◌==◌}
use kknode.Base.Text.{has_prefix, to_lower}
use kknode.Sniffing.{
  SniffResult, protocol_of, domain_of, protocol_for_domain, is_proto_subset_of, Network,
  ProtocolSniffer,
}
use kknode.Sniffing.Reader.{Read, CachedReader, new_reader, sniffer}

-- `net.Address`
pub data Address : Type 0 where
  ip domain : String → Address

pub is_ip : Address → Bool
is_ip (ip a) = true
is_ip (domain d) = false

-- `session.SniffingRequest`; a matcher that is nil is `none`
pub record SniffingRequest : Type 0 where
  pub enabled : Bool
  pub metadata_only : Bool
  pub route_only : Bool
  pub override_destination_for_protocol : List String
  pub exclude_for_domain : Option (String → Bool)
  pub exclude_for_ip : Option (Address → Bool)

abbrev pub excludes {ℓ} : {A : Type ℓ} → Option (A → Bool) → A → Bool
excludes none a = false
excludes (some match) a = match a

-- The loop of `shouldOverride`; `in_pool` is `IsIPInIPPool` of the engine for fake addresses, if the
-- dispatcher has one.
pub overrides_by : Option (Address → Bool) → SniffResult → String → Address → List String → Bool
unfolding is_ip is_proto_subset_of
overrides_by in_pool r protocol address [] = false
overrides_by in_pool r protocol address (p ∷ ps) =
    (has_prefix protocol p || has_prefix p protocol)
    || (not (protocol == "bittorrent")
        && p == "fakedns"
        && is_ip address
        && excludes in_pool address)
    || is_proto_subset_of r p
    || overrides_by in_pool r protocol address ps

-- `shouldOverride`
unfoldable pub should_override :
    Option (Address → Bool) → SniffResult → SniffingRequest → Address → Bool
unfolding overrides_by domain_of protocol_for_domain
should_override in_pool r request address =
    let d = domain_of r in
    not (d == "")
    && not (excludes request.exclude_for_domain (to_lower d))
    && not (is_ip address && excludes request.exclude_for_ip address)
    && overrides_by in_pool r (protocol_for_domain r) address
        request.override_destination_for_protocol

-- what the session has of the connection: the protocol of the content, and the last outbound
pub record Target : Type 0 where
  pub protocol : String
  pub original_target : Address
  pub target : Address
  pub route_target : Option Address

-- The part of `Dispatch` and of `DispatchLink` behind `sniffer`: the session, and the destination
-- that is handed on. `none` is an error of the sniffing.
unfoldable pub sniffed_target :
    (String → Address)
    → Option (Address → Bool)
    → SniffingRequest
    → Option SniffResult
    → Target
    → Address
    → Target × Address
unfolding should_override protocol_of domain_of protocol_for_domain is_ip
sniffed_target parse_address in_pool request none s destination = (s, destination)
sniffed_target parse_address in_pool request (some r) s destination =
    let s' : Target = record s { protocol = protocol_of r } in
    let address = parse_address (domain_of r) in
    let p = protocol_for_domain r in
    let is_fake_ip = is_ip s.target && excludes in_pool s.target in
    if should_override in_pool r request destination
    then if request.route_only
        && not (p == "fakedns")
        && not (p == "fakedns+others")
        && not is_fake_ip
      then (record s' { route_target = some address }, address)
      else (record s' { target = address }, address)
    else (s', destination)

-- What is routed, and by which protocol: the reader that the outbound then reads from, the session
-- and the destination. `none` would be a loop of the sniffing that does not end.
unfoldable pub sniff_and_target :
    (String → Address)
    → Option (Address → Bool)
    → (ℕ → Read)
    → ℕ
    → SniffingRequest
    → Network
    → List ProtocolSniffer
    → Target
    → Address
    → Option (CachedReader × Target × Address)
unfolding sniffer sniffed_target
sniff_and_target parse_address in_pool link capacity request network sniffers s destination =
    if not request.enabled
    then some (new_reader, s, destination)
    else (elim (sniffer link capacity request.metadata_only network sniffers) [
      | none ↦ none
      | some (reader, r) ↦
          let (s', address) = sniffed_target parse_address in_pool request r s destination in
          some (reader, s', address)
    ])
