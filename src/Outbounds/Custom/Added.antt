-- ===== src/Outbounds/Custom/Added.antt =====
-- What the loop over the panel's outbounds keeps.
use kknode.Base.{
  String, ◌≡◌, true, List, [], ◌∷◌, ◌++◌, Option, none, some, map, if◌then◌else◌, All-append,
  All-imp, arith, if-elim, subst,
}
use kknode.Base.Eq.{string_eq, ◌==◌, beq_refl}
use kknode.Base.Result.{Result, ok, err, ok_first}
use kknode.Panel.{Outbound}
use kknode.Outbounds.{build_outbound_route_rules}
use kknode.Outbounds.Settings.{OutboundError, Raw, build_outbound_settings}
use kknode.Outbounds.Stream.{StreamConfig, build_outbound_stream_config}
use kknode.Outbounds.Custom.{
  OutboundDetour, CoreRule, route_rule, CustomError, OutboundBuilder, Parsers, raw_settings,
  has_outbound_with_tag, add_built, add_detour, add_outbound, add_outbounds,
}
use kknode.Outbounds.Custom.Tags.{
  rule_tag, build_outbound_route_rules-tag, IsSound, has-append, Distinct-append, Leads-map,
}

module _ (io : OutboundBuilder) (parsers : Parsers) where
  open io use {Built, build, tag_of}

  add_built-IsSound :
      (item : Outbound) (o : Built) (acc : List CoreRule × List (Option Built))
      → IsSound io parsers acc
      → IsSound io parsers (add_built io parsers item o acc)
  unfolding add_built
  add_built-IsSound item o (rules, outs) s =
      let new =
        build_outbound_route_rules parsers.parse_cidr parsers.parse_ip item.rules (tag_of o) in
      let tags =
        build_outbound_route_rules-tag parsers.parse_cidr parsers.parse_ip item.rules (tag_of o) in
      let more = outs ++ some o ∷ [] in
      if-elim (λ (os : List (Option Built)). IsSound io parsers (rules ++ map route_rule new, os))
        (has_outbound_with_tag io parsers outs (tag_of o)) outs more
        (λ e. (
          All-append _ rules (map route_rule new) s.0
              (Leads-map io parsers outs (tag_of o) new e tags),
          s.1,
        ))
        (λ e.
          let here : has_outbound_with_tag io parsers more (tag_of o) ≡ true =
            ground (arith, has-append io parsers outs o (tag_of o), beq_refl (tag_of o)) in
          (
            All-append _ rules (map route_rule new)
                (All-imp (λ r h. ground (arith, has-append io parsers outs o (rule_tag r))) rules
                  s.0)
                (Leads-map io parsers more (tag_of o) new here tags),
            Distinct-append io parsers outs o e s.1,
          ))

  add_detour-IsSound :
      (item : Outbound) (detour : OutboundDetour) (acc : List CoreRule × List (Option Built))
      → IsSound io parsers acc
      → IsSound io parsers (add_detour io parsers item detour acc)
  unfolding add_detour
  add_detour-IsSound item detour acc s = built (build detour)
    where
      built :
          (b : Option Built)
          → IsSound io parsers (elim b [ none ↦ acc | some o ↦ add_built io parsers item o acc ])
      built none = s
      built (some o) = add_built-IsSound item o acc s

  add_outbound-IsSound :
      (item : Outbound) (acc acc' : List CoreRule × List (Option Built))
      → IsSound io parsers acc
      → add_outbound io parsers item acc ≡ ok acc'
      → IsSound io parsers acc'
  unfolding add_outbound
  add_outbound-IsSound item acc acc' s = settled (build_outbound_settings parsers.valid item)
    where
      Sound : Result CustomError (List CoreRule × List (Option Built)) → Type 0
      Sound r = r ≡ ok acc' → IsSound io parsers acc'

      kept : (a : List CoreRule × List (Option Built)) → IsSound io parsers a → Sound (ok a)
      kept a k e = let same : a ≡ acc' = cc in subst (IsSound io parsers) same k

      streamed :
          (protocol : String) (raw : Raw) (r : Result OutboundError (Option StreamConfig))
          → Sound (elim r [
            | err e ↦ err (CustomError.outbound_error e)
            | ok stream ↦ ok (
                add_detour io parsers item
                  (record {
                    tag = item.name;
                    protocol = protocol;
                    settings = raw_settings raw;
                    stream_setting = stream;
                  })
                  acc)
          ])
      streamed protocol raw (err e) h = cc
      streamed protocol raw (ok stream) h = kept _ (add_detour-IsSound item _ acc s) h

      settled :
          (r : Result OutboundError (Option (String × Raw)))
          → Sound (elim r [
            | err e ↦ err (CustomError.outbound_error e)
            | ok none ↦ ok acc
            | ok (some (protocol, raw)) ↦
                if protocol == ""
                then ok acc
                else (elim (build_outbound_stream_config parsers.unmarshal item) [
                  | err e ↦ err (CustomError.outbound_error e)
                  | ok stream ↦ ok (
                      add_detour io parsers item
                        (record {
                          tag = item.name;
                          protocol = protocol;
                          settings = raw_settings raw;
                          stream_setting = stream;
                        })
                        acc)
                ])
          ])
      settled (err e) h = cc
      settled (ok none) h = kept acc s h
      settled (ok (some (protocol, raw))) h =
          if-elim Sound (protocol == "") (ok acc) _ (λ _. kept acc s)
            (λ _. streamed protocol raw (build_outbound_stream_config parsers.unmarshal item)) h

  pub add_outbounds-IsSound :
      (items : List Outbound) (acc acc' : List CoreRule × List (Option Built))
      → IsSound io parsers acc
      → add_outbounds io parsers items acc ≡ ok acc'
      → IsSound io parsers acc'
  unfolding add_outbounds
  add_outbounds-IsSound [] acc acc' s e =
      let same : acc ≡ acc' = cc in subst (IsSound io parsers) same s
  add_outbounds-IsSound (item ∷ items) acc acc' s e =
      let (mid, first, rest) = ok_first (add_outbound io parsers item acc) _ e in
      add_outbounds-IsSound items mid acc' (add_outbound-IsSound item acc mid s first) rest
