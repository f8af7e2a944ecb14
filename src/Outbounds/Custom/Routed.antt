-- ===== src/Outbounds/Custom/Routed.antt =====
-- Where the rules of `GetCustomConfig` lead.
use kknode.Base.{String, ◌≡◌, refl, true, List, [], ◌∷◌, Option, none, some, sym, subst}
use kknode.Base.Eq.{string_eq}
use kknode.Base.Result.{Result, ok, err, ok_first}
use kknode.Panel.{Data}
use kknode.Outbounds.{build_route_domains}
use kknode.Outbounds.Custom.{
  InterfaceAddr, DnsConfig, OutboundDetour, default_outbound, block_outbound, dns_outbound,
  CoreRule, dns_rule, block_rule, CustomError, block_rules, OutboundBuilder, Parsers,
  has_outbound_with_tag, add_outbounds, items_of, dns_config, has_public_ipv6, get_custom_config,
}
use kknode.Outbounds.Custom.Tags.{Distinct, Leads, IsSound}
use kknode.Outbounds.Custom.Added.{add_outbounds-IsSound}

module _ (io : OutboundBuilder) (parsers : Parsers) where
  open io use {Built, build, tag_of}

  -- The three outbounds of the program itself are built, and have the tags that they were given.
  module _ (given : (d : OutboundDetour) (o : Built) → build d ≡ some o → tag_of o ≡ d.tag)
      {free block dns : Built} (f : build default_outbound ≡ some free)
      (b : build block_outbound ≡ some block) (n : build dns_outbound ≡ some dns) where
    start-IsSound :
        (blocked : List String)
        → IsSound io parsers (
          dns_rule ∷ block_rules blocked,
          build default_outbound ∷ build block_outbound ∷ build dns_outbound ∷ [],
        )
    unfolding block_rules has_outbound_with_tag
    start-IsSound blocked =
        let free_is : tag_of free ≡ "Default" = given default_outbound free f in
        let block_is : tag_of block ≡ "block" = given block_outbound block b in
        let dns_is : tag_of dns ≡ "dns_out" = given dns_outbound dns n in
        let outs = some free ∷ some block ∷ some dns ∷ [] in
        let are : (build default_outbound ∷ build block_outbound ∷ build dns_outbound ∷ []) ≡ outs =
          rw (f, b, n) refl in
        let to_dns : has_outbound_with_tag io parsers outs "dns_out" ≡ true =
          rw (free_is, block_is, dns_is) refl in
        let to_block : has_outbound_with_tag io parsers outs "block" ≡ true =
          rw (free_is, block_is) refl in
        subst
          (λ (os : List (Option Built)). IsSound io parsers (dns_rule ∷ block_rules blocked, os))
          (sym are)
          (
            (to_dns, blocking (build_route_domains blocked) outs to_block),
            (rw (free_is, block_is, dns_is) refl, (rw (block_is, dns_is) refl, (refl, tt))),
          )
      where
        blocking :
            (ds : List String) (outs : List (Option Built))
            → has_outbound_with_tag io parsers outs "block" ≡ true
            → Leads io parsers outs (elim ds [ [] ↦ [] | d ∷ ds ↦ block_rule (d ∷ ds) ∷ [] ])
        blocking [] outs h = tt
        blocking (d ∷ ds) outs h = (h, tt)

    -- Where `GetCustomConfig` succeeds, every rule that it hands to the router names an outbound of
    -- its list, and no two outbounds have the same tag, whatever the panel's list repeats, leaves out
    -- or fails to build.
    pub get_custom_config_lem :
        {D R : Type 0} (build_dns : DnsConfig → Option D) (build_router : List CoreRule → Option R)
        (addrs : Option (List InterfaceAddr)) (d : Data) {dns : D} {outs : List (Option Built)}
        {router : R}
        → get_custom_config io parsers build_dns build_router addrs d ≡ ok (dns, outs, router)
        → (rules : List CoreRule) × (build_router rules ≡ some router)
          × Leads io parsers outs rules
          × Distinct io parsers outs
    unfolding get_custom_config
    get_custom_config_lem build_dns build_router addrs d {dns} {outs} {router} e =
        let ((rules, os), made, rest) =
          ok_first (add_outbounds io parsers (items_of d.outbound) _) _ e in
        let sound =
          add_outbounds-IsSound io parsers (items_of d.outbound) _ (rules, os)
            (start-IsSound (items_of d.block)) made in
        let (same, r) =
          finished (build_dns (dns_config d (has_public_ipv6 addrs))) (build_router rules) rest in
        (
          rules,
          r,
          subst (λ (o : List (Option Built)). Leads io parsers o rules) same sound.0,
          subst (Distinct io parsers) same sound.1,
        )
      where
        join_of :
            {D R : Type 0}
            → List (Option Built)
            → Option D
            → Option R
            → Result CustomError (D × List (Option Built) × R)
        join_of os x y = elim x [
          | none ↦ err CustomError.dns_error
          | some dns ↦ elim y [
            | none ↦ err CustomError.router_error
            | some router ↦ ok (dns, os, router)
          ]
        ]

        finished :
            {D R : Type 0} {os outs : List (Option Built)} {dns : D} {router : R} (x : Option D)
            (y : Option R)
            → join_of os x y ≡ ok (dns, outs, router)
            → (os ≡ outs) × (y ≡ some router)
        finished none y h = cc
        finished (some x) none h = cc
        finished (some x) (some y) h = (cc, cc)
