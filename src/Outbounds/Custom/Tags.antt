-- ===== src/Outbounds/Custom/Tags.antt =====
-- Rules and outbounds by their tags.
use kknode.Base.{
  String, ◌≡◌, refl, Bool, true, false, ◌||◌, List, [], ◌∷◌, ◌++◌, Option, none, some, map, All,
  All-append, arith, if-elim, sym, ◌∙◌, subst,
}
use kknode.Base.Eq.{string_eq, ◌==◌}
use kknode.Outbounds.{
  RouteRule, network_rule, domain_rule, ip_rule, sort_rules, build_route_domains,
  build_outbound_route_rules,
}
use kknode.Outbounds.Custom.{
  CoreRule, dns_rule, block_rule, route_rule, OutboundBuilder, Parsers, has_outbound_with_tag,
}

-- the outbound that a rule names
abbrev pub route_tag : RouteRule → String
route_tag (network_rule tag) = tag
route_tag (domain_rule ds tag) = tag
route_tag (ip_rule is tag) = tag

abbrev pub rule_tag : CoreRule → String
rule_tag dns_rule = "dns_out"
rule_tag (block_rule ds) = "block"
rule_tag (route_rule r) = route_tag r

pub build_outbound_route_rules-tag :
    (parse_cidr parse_ip : String → Bool) (rules : List String) (tag : String)
    → All (λ r. route_tag r ≡ tag) (build_outbound_route_rules parse_cidr parse_ip rules tag)
unfolding build_outbound_route_rules
build_outbound_route_rules-tag parse_cidr parse_ip rules tag =
    let found =
      sort_rules parse_cidr parse_ip (record { domains = []; ips = []; catch_all = false }) rules in
    if-elim (All (λ r. route_tag r ≡ tag)) found.catch_all _ _ (λ _. (refl, tt))
      (λ _.
        All-append (λ r. route_tag r ≡ tag) _ _ (by_domain (build_route_domains found.domains))
          (by_ip found.ips))
  where
    by_domain :
        (ds : List String)
        → All
            (λ r. route_tag r ≡ tag)
            (elim ds [ [] ↦ [] | d ∷ ds ↦ domain_rule (d ∷ ds) tag ∷ [] ])
    by_domain [] = tt
    by_domain (d ∷ ds) = (refl, tt)

    by_ip :
        (is : List String)
        → All (λ r. route_tag r ≡ tag) (elim is [ [] ↦ [] | i ∷ is ↦ ip_rule (i ∷ is) tag ∷ [] ])
    by_ip [] = tt
    by_ip (i ∷ is) = (refl, tt)

module _ (io : OutboundBuilder) (parsers : Parsers) where
  open io use {Built, build, tag_of}

  -- No two outbounds have the same tag.
  abbrev pub Distinct : List (Option Built) → Type 0
  Distinct [] = Unit
  Distinct (none ∷ os) = Distinct os
  Distinct (some o ∷ os) = (has_outbound_with_tag io parsers os (tag_of o) ≡ false) × Distinct os

  -- Every rule names an outbound.
  abbrev pub Leads : List (Option Built) → List CoreRule → Type 0
  Leads outs = All (λ r. has_outbound_with_tag io parsers outs (rule_tag r) ≡ true)

  abbrev pub IsSound : List CoreRule × List (Option Built) → Type 0
  IsSound acc = Leads acc.1 acc.0 × Distinct acc.1

  pub has-append :
      (outs : List (Option Built)) (o : Built) (tag : String)
      → has_outbound_with_tag io parsers (outs ++ some o ∷ []) tag
        ≡ (has_outbound_with_tag io parsers outs tag || tag_of o == tag)
  unfolding has_outbound_with_tag
  has-append [] o tag = ground arith
  has-append (none ∷ outs) o tag = has-append outs o tag
  has-append (some p ∷ outs) o tag = ground (arith, has-append outs o tag)

  pub Distinct-append :
      (outs : List (Option Built)) (o : Built)
      → has_outbound_with_tag io parsers outs (tag_of o) ≡ false
      → Distinct outs
      → Distinct (outs ++ some o ∷ [])
  unfolding has_outbound_with_tag
  Distinct-append [] o n d = (refl, tt)
  Distinct-append (none ∷ outs) o n d = Distinct-append outs o n d
  Distinct-append (some p ∷ outs) o n d = (
    has-append outs o (tag_of p)
        ∙ ground (
          arith,
          d.0,
          string_eq.beq_iff (tag_of o) (tag_of p),
          string_eq.beq_iff (tag_of p) (tag_of o),
        ),
    Distinct-append outs o (ground arith) d.1,
  )

  pub Leads-map :
      (outs : List (Option Built)) (tag : String) (rs : List RouteRule)
      → has_outbound_with_tag io parsers outs tag ≡ true
      → All (λ r. route_tag r ≡ tag) rs
      → Leads outs (map route_rule rs)
  Leads-map outs tag [] h a = tt
  Leads-map outs tag (r ∷ rs) h a = (
    subst (λ (t : String). has_outbound_with_tag io parsers outs t ≡ true) (sym a.0) h,
    Leads-map outs tag rs h a.1,
  )
