-- ===== src/Outbounds.antt =====
-- core/custom.go: the routing rules and the outbounds that the panel's configuration asks for. The
-- parsers of addresses and of JSON are parameters; a rule or an object that the code marshals is a
-- value here.
pub mod Domains
pub mod Rules
pub mod Settings
pub mod Stream
pub mod Custom
use Prim.Native.String
use Prim.Native.Char.{code}
use kknode.Base.{
  ℕ, zero, suc, String, Bool, true, false, not, ◌&&◌, ◌||◌, List, [], ◌∷◌, ◌++◌, Option, none, some,
  map, if◌then◌else◌, ◌==◌ as eq_ℕ,
}
use kknode.Base.Eq.{string_eq, ◌==◌}
use kknode.Base.Text.{concat, trim_space, to_lower, has_prefix, cut, split}

abbrev pub has_text : String → List String → Bool
has_text s [] = false
has_text s (t ∷ ts) = t == s || has_text s ts

-- The value that xray-core takes for a rule on domains; `none` where the loop goes on without one.
unfoldable pub route_domain : String → Option String
route_domain raw =
    let rule = trim_space raw in
    let named = λ (a b : String).
      if b == ""
      then none
      else if a == "keyword"
      then some b
      else if a == "suffix"
      then some (concat ("domain:" ∷ b ∷ []))
      else if a == "regex"
      then some (concat ("regexp:" ∷ b ∷ []))
      else some b in
    if rule == "" then none else elim (cut b':' rule) [
      | none ↦ some (concat ("full:" ∷ rule ∷ []))
      | some (a, b) ↦ named (trim_space a) (trim_space b)
    ]

-- the loop of `buildRouteDomains`, with the values that were seen
pub route_domains_from : List String → List String → List String
route_domains_from seen [] = []
route_domains_from seen (rule ∷ rules) =
    let skipped = route_domains_from seen rules in
    let taken = λ (v : String). v ∷ route_domains_from (v ∷ seen) rules in
    elim (route_domain rule) [
      | none ↦ skipped
      | some v ↦ if has_text v seen then skipped else taken v
    ]

unfoldable pub build_route_domains : List String → List String
unfolding route_domains_from
build_route_domains rules = route_domains_from [] rules

pub data RouteRule : Type 0 where
  network_rule : String → RouteRule
  domain_rule : List String → String → RouteRule
  ip_rule : List String → String → RouteRule

-- `r[3:]`; of the letters that `ToLower` makes an `i`, one takes two bytes
unfoldable pub after_ip : String → String
after_ip String.[] = ""
after_ip (String.◌∷◌ c s) = if eq_ℕ (code c) 0x130 then drop 1 s else drop 2 s
  where
    drop : ℕ → String → String
    drop zero s = s
    drop (suc n) String.[] = ""
    drop (suc n) (String.◌∷◌ c s) = drop n s

-- what the loop of `buildOutboundRouteRules` has found so far
pub record Sorted : Type 0 where
  pub domains : List String
  pub ips : List String
  pub catch_all : Bool

abbrev pub is_all : String → Bool
is_all r = let s = to_lower r in s == "all" || s == "*" || s == "any"

module _ (parse_cidr parse_ip : String → Bool) where
  unfoldable pub looks_like_ip_or_cidr : String → Bool
  looks_like_ip_or_cidr s = if parse_cidr s then true else parse_ip s

  -- one round of the loop
  unfoldable pub sort_rule : Sorted → String → Sorted
  unfolding looks_like_ip_or_cidr
  sort_rule acc raw =
      let r = trim_space raw in
      let v = trim_space (after_ip r) in
      if r == ""
      then acc
      else if is_all r
      then record acc { catch_all = true }
      else if has_prefix (to_lower r) "ip:"
      then if v == "" then acc else record acc { ips = acc.ips ++ v ∷ [] }
      else if looks_like_ip_or_cidr r
      then record acc { ips = acc.ips ++ r ∷ [] }
      else record acc { domains = acc.domains ++ r ∷ [] }

  unfoldable pub sort_rules : Sorted → List String → Sorted
  unfolding sort_rule
  sort_rules acc [] = acc
  sort_rules acc (r ∷ rs) = sort_rules (sort_rule acc r) rs

  unfoldable pub build_outbound_route_rules : List String → String → List RouteRule
  unfolding sort_rules
  build_outbound_route_rules rules tag =
      let found = sort_rules (record { domains = []; ips = []; catch_all = false }) rules in
      if found.catch_all
      then network_rule tag ∷ []
      else (elim (build_route_domains found.domains) [
        | [] ↦ []
        | d ∷ ds ↦ domain_rule (d ∷ ds) tag ∷ []
      ])
        ++ (elim found.ips [ [] ↦ [] | i ∷ is ↦ ip_rule (i ∷ is) tag ∷ [] ])

-- The domains of one DNS server of the configuration.
unfoldable pub dns_domain : String → String
dns_domain item = elim (split b':' item) [
  | [] ↦ concat ("full:" ∷ item ∷ [])
  | a ∷ rest ↦ elim rest [
    | [] ↦ concat ("full:" ∷ item ∷ [])
    | b ∷ more ↦ elim more [
      | [] ↦
          if a == "keyword"
          then b
          else if a == "suffix"
          then concat ("domain:" ∷ b ∷ [])
          else if a == "regex"
          then concat ("regexp:" ∷ b ∷ [])
          else b
      | c ∷ cs ↦ concat ("full:" ∷ item ∷ [])
    ]
  ]
]
