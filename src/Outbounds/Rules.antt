-- ===== src/Outbounds/Rules.antt =====
-- `buildOutboundRouteRules`: each rule is of one kind, and the loop collects each kind in order.
use kknode.Base.{
  String, ◌≡◌, refl, ap, sym, ◌∙◌, Bool, true, false, ◌||◌, List, [], ◌∷◌, ◌++◌, append_assoc,
  append-nil, if◌then◌else◌, arith,
}
use kknode.Base.Eq.{string_eq, ◌==◌}
use kknode.Base.Text.{trim_space, to_lower, has_prefix}
use kknode.Outbounds.{
  RouteRule, network_rule, domain_rule, ip_rule, Sorted, is_all, after_ip, looks_like_ip_or_cidr,
  sort_rule, sort_rules, build_route_domains, build_outbound_route_rules,
}

pub data Kind : Type 0 where
  nothing : Kind
  everything : Kind
  address : String → Kind
  domain : String → Kind

abbrev pub domains_of : List Kind → List String
domains_of [] = []
domains_of (domain d ∷ ks) = d ∷ domains_of ks
domains_of (_ ∷ ks) = domains_of ks

abbrev pub addresses_of : List Kind → List String
addresses_of [] = []
addresses_of (address a ∷ ks) = a ∷ addresses_of ks
addresses_of (_ ∷ ks) = addresses_of ks

abbrev pub takes_all : List Kind → Bool
takes_all [] = false
takes_all (everything ∷ ks) = true
takes_all (_ ∷ ks) = takes_all ks

abbrev pub rule_of : (List String → String → RouteRule) → List String → String → List RouteRule
rule_of f [] tag = []
rule_of f (s ∷ ss) tag = f (s ∷ ss) tag ∷ []

sorted_ext :
    {d d' i i' : List String} {c c' : Bool}
    → d ≡ d'
    → i ≡ i'
    → c ≡ c'
    → ◌≡◌ {A = Sorted}
        (record { domains = d; ips = i; catch_all = c })
        (record { domains = d'; ips = i'; catch_all = c' })
sorted_ext p q r = cc

-- what the function makes of the sorted rules
abbrev rules_of : String → Sorted → List RouteRule
rules_of tag found =
    if found.catch_all
    then network_rule tag ∷ []
    else (elim (build_route_domains found.domains) [
      | [] ↦ []
      | d ∷ ds ↦ domain_rule (d ∷ ds) tag ∷ []
    ])
      ++ (elim found.ips [ [] ↦ [] | i ∷ is ↦ ip_rule (i ∷ is) tag ∷ [] ])

rule_of_eq :
    (f : List String → String → RouteRule) (tag : String) (xs : List String)
    → (elim xs [ [] ↦ [] | x ∷ ys ↦ f (x ∷ ys) tag ∷ [] ]) ≡ rule_of f xs tag
rule_of_eq f tag [] = refl
rule_of_eq f tag (x ∷ xs) = refl

same_rules :
    (tag : String) (ks : List Kind)
    → rules_of tag
        (record { domains = domains_of ks; ips = addresses_of ks; catch_all = takes_all ks })
      ≡ (if takes_all ks
          then network_rule tag ∷ []
          else rule_of domain_rule (build_route_domains (domains_of ks)) tag
            ++ rule_of ip_rule (addresses_of ks) tag)
same_rules tag ks =
    rw
      (
        ← rule_of_eq domain_rule tag (build_route_domains (domains_of ks)),
        ← rule_of_eq ip_rule tag (addresses_of ks),
      )
      refl

module _ (parse_cidr parse_ip : String → Bool) where
  -- what a rule is, blanks around it aside
  unfoldable pub kind : String → Kind
  kind raw =
      let r = trim_space raw in
      let v = trim_space (after_ip r) in
      if r == ""
      then nothing
      else if is_all r
      then everything
      else if has_prefix (to_lower r) "ip:"
      then if v == "" then nothing else address v
      else if parse_cidr r || parse_ip r
      then address r
      else domain r

  unfoldable pub kinds : List String → List Kind
  kinds [] = []
  kinds (r ∷ rs) = kind r ∷ kinds rs

  abbrev add_kind : Sorted → Kind → Sorted
  add_kind acc nothing = acc
  add_kind acc everything = record acc { catch_all = true }
  add_kind acc (address a) = record acc { ips = acc.ips ++ a ∷ [] }
  add_kind acc (domain d) = record acc { domains = acc.domains ++ d ∷ [] }

  sort_rule-kind :
      (acc : Sorted) (raw : String)
      → sort_rule parse_cidr parse_ip acc raw ≡ add_kind acc (kind raw)
  unfolding sort_rule kind looks_like_ip_or_cidr
  sort_rule-kind acc raw = ground arith

  abbrev add_kinds : Sorted → List Kind → Sorted
  add_kinds acc ks = record {
    domains = acc.domains ++ domains_of ks;
    ips = acc.ips ++ addresses_of ks;
    catch_all = acc.catch_all || takes_all ks;
  }

  add_kinds-add_kind :
      (acc : Sorted) (k : Kind) (ks : List Kind)
      → add_kinds (add_kind acc k) ks ≡ add_kinds acc (k ∷ ks)
  add_kinds-add_kind acc nothing ks = refl
  add_kinds-add_kind acc everything ks =
      ap (λ c. record (add_kinds acc ks) { catch_all = c }) (ground arith)
  add_kinds-add_kind acc (address a) ks =
      ap (λ is. record (add_kinds acc ks) { ips = is })
        (append_assoc acc.ips (a ∷ []) (addresses_of ks))
  add_kinds-add_kind acc (domain d) ks =
      ap (λ ds. record (add_kinds acc ks) { domains = ds })
        (append_assoc acc.domains (d ∷ []) (domains_of ks))

  sort_rules-kinds :
      (acc : Sorted) (rules : List String)
      → sort_rules parse_cidr parse_ip acc rules ≡ add_kinds acc (kinds rules)
  unfolding sort_rules kinds
  sort_rules-kinds acc [] =
      sorted_ext (sym (append-nil acc.domains)) (sym (append-nil acc.ips)) (ground arith)
  sort_rules-kinds acc (r ∷ rs) =
      sort_rules-kinds (sort_rule parse_cidr parse_ip acc r) rs
      ∙ ap (λ a. add_kinds a (kinds rs)) (sort_rule-kind acc r)
      ∙ add_kinds-add_kind acc (kind r) (kinds rs)

  -- One rule for the whole network, where some line asks for everything; or else a rule for the
  -- domains and one for the addresses, each where there are any, with the lines of that kind in
  -- their order. A line is of one kind, and one that is blank or names no address is of none.
  pub build_outbound_route_rules_lem :
      (rules : List String) (tag : String)
      → let ks = kinds rules in
        build_outbound_route_rules parse_cidr parse_ip rules tag ≡ (
          if takes_all ks
          then network_rule tag ∷ []
          else rule_of domain_rule (build_route_domains (domains_of ks)) tag
            ++ rule_of ip_rule (addresses_of ks) tag)
  unfolding build_outbound_route_rules
  build_outbound_route_rules_lem rules tag =
      ap (rules_of tag)
        (sort_rules-kinds (record { domains = []; ips = []; catch_all = false }) rules)
      ∙ same_rules tag (kinds rules)
