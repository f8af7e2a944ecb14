-- ===== src/Outbounds/Custom.antt =====
-- core/custom.go and core/outbound.go: `GetCustomConfig`, which puts the DNS servers, the outbounds
-- and the routing rules of the panel's configuration together. `Build` of the package conf, for an
-- outbound, for DNS and for the router, is a parameter; so are the addresses of the interfaces.
pub mod Tags
pub mod Added
pub mod Routed
use kknode.Base.{
  String, Bool, true, false, not, ◌&&◌, ◌||◌, List, [], ◌∷◌, ◌++◌, Option, none, some, map,
  if◌then◌else◌,
}
use kknode.Base.Eq.{string_eq, ◌==◌}
use kknode.Base.Result.{Result, ok, err, ◌>>=◌}
use kknode.Panel.{Outbound, DnsItem, Data}
use kknode.Outbounds.{RouteRule, build_route_domains, build_outbound_route_rules, dns_domain}
use kknode.Outbounds.Settings.{OutboundError, Raw, build_outbound_settings}
use kknode.Outbounds.Stream.{StreamConfig, build_outbound_stream_config}

-- an address of `net.InterfaceAddrs`, by what the code asks of it
pub record InterfaceAddr : Type 0 where
  pub is_ip_net : Bool
  pub is_ipv4 : Bool
  pub is_loopback : Bool
  pub is_link_local_unicast : Bool
  pub is_private : Bool

pub is_public_ipv6 : InterfaceAddr → Bool
is_public_ipv6 a =
    a.is_ip_net
    && not a.is_ipv4
    && not a.is_loopback
    && not a.is_link_local_unicast
    && not a.is_private

pub any_public : List InterfaceAddr → Bool
unfolding is_public_ipv6
any_public [] = false
any_public (a ∷ as') = is_public_ipv6 a || any_public as'

-- `hasPublicIPv6`; an error is `none`
unfoldable pub has_public_ipv6 : Option (List InterfaceAddr) → Bool
unfolding any_public
has_public_ipv6 none = false
has_public_ipv6 (some addrs) = any_public addrs

-- the strategy for the servers of the panel
unfoldable pub ip_strategy : String → Bool → String
ip_strategy strategy public_ipv6 =
    if not (strategy == "")
    then if strategy == "prefer_ipv4"
      then "UseIPv4v6"
      else if strategy == "prefer_ipv6"
      then "UseIPv6v4"
      else "UseIPv4v6"
    else if public_ipv6
    then "UseIPv4v6"
    else "UseIPv4"

-- `NameServerConfig`
pub record NameServer : Type 0 where
  pub address : String
  pub query_strategy : String
  pub domains : List String

pub record DnsConfig : Type 0 where
  pub servers : List NameServer
  pub query_strategy : String

abbrev pub items_of {ℓ} : {A : Type ℓ} → Option (List A) → List A
items_of none = []
items_of (some xs) = xs

-- The server of this machine, and those of the panel; a strategy that is not set is the empty text.
unfoldable pub dns_config : Data → Bool → DnsConfig
unfolding ip_strategy
dns_config d public_ipv6 = record {
  servers =
      record { address = "localhost"; query_strategy = ""; domains = [] }
      ∷ map
          (λ (item : DnsItem). record {
            address = item.address;
            query_strategy = ip_strategy d.ip_strategy public_ipv6;
            domains = map dns_domain item.domains;
          })
          (items_of d.dns);
  query_strategy = if not public_ipv6 then "UseIPv4" else "UseIPv4v6";
}

-- `OutboundDetourConfig`; the settings of an outbound of the program itself are `none`, or those of
-- a `FreedomConfig` with its strategy.
pub data DetourSettings : Type 0 where
  no_settings : DetourSettings
  freedom_settings : String → DetourSettings
  raw_settings : Raw → DetourSettings

pub record OutboundDetour : Type 0 where
  pub tag : String
  pub protocol : String
  pub settings : DetourSettings
  pub stream_setting : Option StreamConfig

-- `buildDefaultOutbound`
abbrev pub default_outbound : OutboundDetour
default_outbound = record {
  tag = "Default";
  protocol = "freedom";
  settings = freedom_settings "UseIPv4v6";
  stream_setting = none;
}

-- `buildBlockOutbound`
abbrev pub block_outbound : OutboundDetour
block_outbound = record {
  tag = "block";
  protocol = "blackhole";
  settings = no_settings;
  stream_setting = none;
}

-- `buildDnsOutbound`
abbrev pub dns_outbound : OutboundDetour
dns_outbound = record {
  tag = "dns_out";
  protocol = "dns";
  settings = no_settings;
  stream_setting = none;
}

-- a rule of the router
pub data CoreRule : Type 0 where
  -- port 53 of UDP
  dns_rule : CoreRule
  block_rule : List String → CoreRule
  route_rule : RouteRule → CoreRule

pub data CustomError : Type 0 where
  outbound_error : OutboundError → CustomError
  dns_error router_error : CustomError

-- the rule for the domains that are blocked, where there are any
unfoldable pub block_rules : List String → List CoreRule
block_rules rules = elim (build_route_domains rules) [ [] ↦ [] | d ∷ ds ↦ block_rule (d ∷ ds) ∷ [] ]

-- What is built of an outbound of xray-core, with its tag.
pub record OutboundBuilder : Type 1 where
  pub Built : Type 0
  pub build : OutboundDetour → Option Built
  pub tag_of : Built → String

-- The parsers that the settings, the streams and the rules need.
pub record Parsers : Type 0 where
  pub valid : String → Bool
  pub unmarshal : String → Option StreamConfig
  pub parse_cidr : String → Bool
  pub parse_ip : String → Bool

module _ (io : OutboundBuilder) (parsers : Parsers) where
  open io use {Built, build, tag_of}

  -- `hasOutboundWithTag`; an outbound that is nil is `none`
  unfoldable pub has_outbound_with_tag : List (Option Built) → String → Bool
  has_outbound_with_tag [] tag = false
  has_outbound_with_tag (none ∷ os) tag = has_outbound_with_tag os tag
  has_outbound_with_tag (some o ∷ os) tag = tag_of o == tag || has_outbound_with_tag os tag

  -- the end of a round of the loop, for an outbound that is built
  unfoldable pub add_built :
      Outbound → Built → List CoreRule × List (Option Built) → List CoreRule × List (Option Built)
  add_built item o (rules, outs) = (
    rules
        ++ map route_rule
            (build_outbound_route_rules parsers.parse_cidr parsers.parse_ip item.rules (tag_of o)),
    if has_outbound_with_tag outs (tag_of o) then outs else outs ++ some o ∷ [],
  )

  -- an outbound with its protocol, settings and stream; one that does not build is passed over
  unfoldable pub add_detour :
      Outbound
      → OutboundDetour
      → List CoreRule × List (Option Built)
      → List CoreRule × List (Option Built)
  unfolding add_built
  add_detour item detour acc = elim (build detour) [ none ↦ acc | some o ↦ add_built item o acc ]

  -- one round of the loop over the outbounds
  unfoldable pub add_outbound :
      Outbound
      → List CoreRule × List (Option Built)
      → Result CustomError (List CoreRule × List (Option Built))
  unfolding add_detour
  add_outbound item acc = elim (build_outbound_settings parsers.valid item) [
    | err e ↦ err (outbound_error e)
    | ok none ↦ ok acc
    | ok (some (protocol, raw)) ↦
        if protocol == ""
        then ok acc
        else (elim (build_outbound_stream_config parsers.unmarshal item) [
          | err e ↦ err (outbound_error e)
          | ok stream ↦ ok (
              add_detour item
                (record {
                  tag = item.name;
                  protocol = protocol;
                  settings = raw_settings raw;
                  stream_setting = stream;
                })
                acc)
        ])
  ]

  unfoldable pub add_outbounds :
      List Outbound
      → List CoreRule × List (Option Built)
      → Result CustomError (List CoreRule × List (Option Built))
  unfolding add_outbound
  add_outbounds [] acc = ok acc
  add_outbounds (item ∷ items) acc = add_outbound item acc >>= λ acc'. add_outbounds items acc'

  -- `GetCustomConfig`: the DNS configuration, the outbounds and the rules, as they are built
  unfoldable pub get_custom_config :
      {D R : Type 0}
      → (DnsConfig → Option D)
      → (List CoreRule → Option R)
      → Option (List InterfaceAddr)
      → Data
      → Result CustomError (D × List (Option Built) × R)
  unfolding add_outbounds dns_config has_public_ipv6 block_rules
  get_custom_config build_dns build_router addrs d =
      let outs = build default_outbound ∷ build block_outbound ∷ build dns_outbound ∷ [] in
      let rules = dns_rule ∷ block_rules (items_of d.block) in
      add_outbounds (items_of d.outbound) (rules, outs) >>= λ acc.
      (elim (build_dns (dns_config d (has_public_ipv6 addrs))) [
        | none ↦ err dns_error
        | some dns ↦ elim (build_router acc.0) [
          | none ↦ err router_error
          | some router ↦ ok (dns, acc.1, router)
        ]
      ])
