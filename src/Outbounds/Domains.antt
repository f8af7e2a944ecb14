-- ===== src/Outbounds/Domains.antt =====
-- `buildRouteDomains`: which values it gives.
use kknode.Base.{
  String, ◌≡◌, refl, Bool, false, not, ◌&&◌, ◌||◌, List, [], ◌∷◌, none, some, arith, Option-cases,
  if-elim, inl, inr,
}
use kknode.Base.Eq.{string_eq, ◌==◌, beq_refl}
use kknode.Outbounds.{has_text, route_domain, route_domains_from, build_route_domains}

-- some rule stands for the value
abbrev pub asked : String → List String → Bool
asked v [] = false
asked v (r ∷ rs) = (elim (route_domain r) [ none ↦ false | some w ↦ w == v ]) || asked v rs

abbrev pub NoRepeat : List String → Type 0
NoRepeat [] = Unit
NoRepeat (v ∷ vs) = (has_text v vs ≡ false) × NoRepeat vs

route_domains_from-has_text :
    (v : String) (seen rules : List String)
    → has_text v (route_domains_from seen rules) ≡ (asked v rules && not (has_text v seen))
unfolding route_domains_from
route_domains_from-has_text v seen [] = refl
route_domains_from-has_text v seen (r ∷ rs) = elim (Option-cases (route_domain r)) [
  | inl e ↦ rw (e, route_domains_from, asked) (route_domains_from-has_text v seen rs)
  | inr (w, e) ↦
      rw (e, route_domains_from, asked)
        (grind (
          arith,
          route_domains_from-has_text v seen rs,
          route_domains_from-has_text v (w ∷ seen) rs,
          string_eq.beq_iff w v,
        ))
]

route_domains_from-NoRepeat : (seen rules : List String) → NoRepeat (route_domains_from seen rules)
unfolding route_domains_from
route_domains_from-NoRepeat seen [] = tt
route_domains_from-NoRepeat seen (r ∷ rs) = elim (Option-cases (route_domain r)) [
  | inl e ↦ rw (e, route_domains_from) (route_domains_from-NoRepeat seen rs)
  | inr (w, e) ↦
      rw (e, route_domains_from)
        (if-elim NoRepeat (has_text w seen) _ _ (λ _. route_domains_from-NoRepeat seen rs)
          (λ _. (
            ground (arith, route_domains_from-has_text w (w ∷ seen) rs, beq_refl w),
            route_domains_from-NoRepeat (w ∷ seen) rs,
          )))
]

-- The result has no value twice, and has exactly the values of the rules that stand for one.
pub build_route_domains_lem :
    (rules : List String)
    → NoRepeat (build_route_domains rules)
      × ((v : String) → has_text v (build_route_domains rules) ≡ asked v rules)
unfolding build_route_domains
build_route_domains_lem rules = (
  route_domains_from-NoRepeat [] rules,
  λ v. ground (arith, route_domains_from-has_text v [] rules),
)
