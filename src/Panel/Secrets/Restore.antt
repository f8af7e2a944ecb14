-- ===== src/Panel/Secrets/Restore.antt =====
-- The credentials come back: `MergeCertDNSEnv` undoes `RedactCertDNSEnv`.
use kknode.Base.{
  String, ◌≡◌, refl, ap, sym, subst, ◌∙◌, ◌⊎◌, inl, inr, ◌≢◌, Bool, true, false, List, [], ◌∷◌,
  Option, none, some, map, All, Member, if◌then◌else◌, arith, Bool-cases, Option-cases,
}
use kknode.Base.Eq.{string_eq, ◌==◌}
use kknode.Base.Map.{Map, load, load-store}
use kknode.Panel.{Protocol, Data, ServerConfigResponse}
use kknode.Panel.Secrets.{
  collect_secrets, redact_protocol, with_protocols, redact_cert_dns_env, merge_protocol,
  merge_cert_dns_env,
}

-- The last credentials of a type that are not empty.
abbrev pub last_env : String → List Protocol → Option String → Option String
last_env t [] found = found
last_env t (p ∷ ps) found = last_env t ps (
    if p.cert_dns_env == "" then found else if p.node_type == t then some p.cert_dns_env else found)

collect_secrets-load :
    (t : String) (ps : List Protocol) (m : Map String String) (f : Option String)
    → load t m ≡ f
    → load t (collect_secrets ps m) ≡ last_env t ps f
unfolding collect_secrets
collect_secrets-load t [] m f h = h
collect_secrets-load t (p ∷ ps) m f h =
    collect_secrets-load t ps _ _ (ground (arith, h, load-store p.node_type t p.cert_dns_env m))

-- Protocols of one type have the same credentials.
abbrev pub Agree : List Protocol → Type 0
Agree ps =
    (p q : Protocol)
    → Member p ps
    → Member q ps
    → p.node_type ≡ q.node_type
    → p.cert_dns_env ≡ q.cert_dns_env

last_env-cases :
    (t : String) (ps : List Protocol) (f : Option String)
    → ((last_env t ps f ≡ f)
        × ((p : Protocol) → Member p ps → p.node_type ≡ t → p.cert_dns_env ≡ ""))
      ⊎ ((q : Protocol) × Member q ps
          × (q.node_type ≡ t)
          × (q.cert_dns_env ≢ "")
          × (last_env t ps f ≡ some q.cert_dns_env))
last_env-cases t [] f = inl (refl, λ p m. absurd m.lower)
last_env-cases t (r ∷ ps) f =
    elim (last_env-cases t ps
      (if r.cert_dns_env == "" then f else if r.node_type == t then some r.cert_dns_env else f)) [
        | inr (q, m, e, n, l) ↦ inr (q, inr m, e, n, l)
        | inl (l, h) ↦ elim (Bool-cases (r.cert_dns_env == "")) [
          | inl e ↦
              inl (l ∙ rw e refl, head_or r ps t (λ k. (string_eq.beq_iff r.cert_dns_env "").0 e) h)
          | inr e ↦ elim (Bool-cases (r.node_type == t)) [
            | inl k ↦ inr (
              r,
              inl refl,
              (string_eq.beq_iff r.node_type t).0 k,
              (λ z. ground (arith, string_eq.beq_iff r.cert_dns_env "")),
              l ∙ rw (e, k) refl,
            )
            | inr k ↦ inl (
              l ∙ rw (e, k) refl,
              head_or r ps t (λ z. ground (arith, string_eq.beq_iff r.node_type t)) h,
            )
          ]
        ]
      ]
  where
    head_or :
        (r : Protocol) (ps : List Protocol) (t : String)
        → (r.node_type ≡ t → r.cert_dns_env ≡ "")
        → ((p : Protocol) → Member p ps → p.node_type ≡ t → p.cert_dns_env ≡ "")
        → (p : Protocol) → Member p (r ∷ ps)
        → p.node_type ≡ t
        → p.cert_dns_env ≡ ""
    head_or r ps t a b p (inl e) = subst (λ x. x.node_type ≡ t → x.cert_dns_env ≡ "") e a
    head_or r ps t a b p (inr m) = b p m

secret_of :
    (ps : List Protocol) (p : Protocol)
    → Agree ps
    → Member p ps
    → ((p.cert_dns_env ≡ "") × (load p.node_type (collect_secrets ps []) ≡ none))
      ⊎ (load p.node_type (collect_secrets ps []) ≡ some p.cert_dns_env)
unfolding load
secret_of ps p a m =
    let l = collect_secrets-load p.node_type ps [] none refl in
    elim (last_env-cases p.node_type ps none) [
      | inl (e, h) ↦ inl (h p m refl, l ∙ e)
      | inr (q, n, t, ne, e) ↦ inr (l ∙ e ∙ ap some (a q p n m t))
    ]

merge-redact_protocol :
    (ps : List Protocol) (p : Protocol)
    → Agree ps
    → Member p ps
    → merge_protocol (collect_secrets ps []) (redact_protocol p) ≡ p
unfolding merge_protocol redact_protocol
merge-redact_protocol ps p a m = elim (secret_of ps p a m) [
  | inl (e, l) ↦ rw (l, merge_protocol) (ap (λ s. record p { cert_dns_env = s }) (sym e))
  | inr l ↦ rw (l, merge_protocol) refl
]

merge-redact_protocols :
    (qs ps : List Protocol)
    → Agree qs
    → ((p : Protocol) → Member p ps → Member p qs)
    → map (merge_protocol (collect_secrets qs [])) (map redact_protocol ps) ≡ ps
merge-redact_protocols qs [] a sub = refl
merge-redact_protocols qs (p ∷ ps) a sub =
    rw
      (
        merge-redact_protocol qs p a (sub p (inl refl)),
        merge-redact_protocols qs ps a (λ q m. sub q (inr m)),
      )
      refl

merge_nothing : (ps : List Protocol) → map (merge_protocol []) ps ≡ ps
unfolding merge_protocol load
merge_nothing [] = refl
merge_nothing (p ∷ ps) = rw (merge_nothing ps) (ap (λ q. q ∷ ps) (same (p.cert_dns_env == "")))
  where
    same : (b : Bool) → (if b then p else p) ≡ p
    same true = refl
    same false = refl

merge_cert_dns_env_eq :
    (cfg : ServerConfigResponse) (d : Data) (ps : List Protocol) (secrets : Map String String)
    → merge_cert_dns_env (some (with_protocols cfg d ps)) secrets
      ≡ some (with_protocols cfg d (map (merge_protocol secrets) ps))
unfolding merge_cert_dns_env
merge_cert_dns_env_eq cfg d ps [] =
    ap (λ qs. some (with_protocols cfg d qs)) (sym (merge_nothing ps))
merge_cert_dns_env_eq cfg d ps (s ∷ ss) = refl

abbrev pub protocols_of : Option ServerConfigResponse → List Protocol
protocols_of none = []
protocols_of (some cfg) = elim cfg.config [
  | none ↦ []
  | some d ↦ elim d.protocols [ none ↦ [] | some ps ↦ ps ]
]

restore :
    (cfg : ServerConfigResponse) (d : Data) (ps : List Protocol)
    → Agree ps
    → merge_cert_dns_env
        (some (with_protocols cfg d (map redact_protocol ps)))
        (collect_secrets ps [])
      ≡ some (with_protocols cfg d ps)
restore cfg d ps a =
    merge_cert_dns_env_eq cfg d (map redact_protocol ps) (collect_secrets ps [])
    ∙ ap (λ qs. some (with_protocols cfg d qs)) (merge-redact_protocols ps ps a (λ p m. m))

-- A configuration that neither function has anything to do for.
abbrev Untouched : ServerConfigResponse → Type 0
Untouched cfg =
    (redact_cert_dns_env (some cfg) ≡ (some cfg, []))
    × (merge_cert_dns_env (some cfg) [] ≡ some cfg)
    × (protocols_of (some cfg) ≡ [])

module _ (cfg : ServerConfigResponse) where
  without_data : cfg.config ≡ none → Untouched cfg
  unfolding redact_cert_dns_env merge_cert_dns_env
  without_data e = subst Untouched (ap (λ o. record cfg { config = o }) (sym e)) (refl, refl, refl)

  module _ (d : Data) (e : cfg.config ≡ some d) where
    with_data :
        (o : Option (List Protocol))
        → d.protocols ≡ o
        → record cfg { config = some (record d { protocols = o }) } ≡ cfg
    with_data o k =
        ap (λ q. record cfg { config = q })
          (ap (λ q. some (record d { protocols = q })) (sym k) ∙ sym e)

    without_protocols : d.protocols ≡ none → Untouched cfg
    unfolding redact_cert_dns_env merge_cert_dns_env
    without_protocols k = subst Untouched (with_data none k) (refl, refl, refl)

    with_both :
        (ps : List Protocol)
        → d.protocols ≡ some ps
        → (redact_cert_dns_env (some cfg)
            ≡ (some (with_protocols cfg d (map redact_protocol ps)), collect_secrets ps []))
          × (protocols_of (some cfg) ≡ ps)
          × (some (with_protocols cfg d ps) ≡ some cfg)
    unfolding redact_cert_dns_env
    with_both ps k = (
      rw (e, redact_cert_dns_env) (rw k refl),
      rw (e, protocols_of) (rw k refl),
      ap some (with_data (some ps) k),
    )

redacted : (ps : List Protocol) → All (λ p. p.cert_dns_env ≡ "") (map redact_protocol ps)
unfolding redact_protocol
redacted [] = tt
redacted (p ∷ ps) = (refl, redacted ps)

-- The redacted configuration has no credentials, whatever the configuration is.
pub redact_cert_dns_env-empty :
    (cfg : ServerConfigResponse)
    → All (λ p. p.cert_dns_env ≡ "") (protocols_of (redact_cert_dns_env (some cfg)).0)
redact_cert_dns_env-empty cfg = elim (Option-cases cfg.config) [
  | inl e ↦ let (r, m, q) = without_data cfg e in rw (r, q) tt
  | inr (d, e) ↦ elim (Option-cases d.protocols) [
    | inl k ↦ let (r, m, q) = without_protocols cfg d e k in rw (r, q) tt
    | inr (ps, k) ↦ let (r, q, eta) = with_both cfg d e ps k in rw r (redacted ps)
  ]
]

-- Where protocols of one type have the same credentials, merging what was taken out back into the
-- redacted configuration gives the configuration, also where it is `nil` or has no protocols. No
-- protocol of the redacted configuration has credentials.
pub merge-redact_cert_dns_env :
    (cfg : Option ServerConfigResponse)
    → Agree (protocols_of cfg)
    → (merge_cert_dns_env (redact_cert_dns_env cfg).0 (redact_cert_dns_env cfg).1 ≡ cfg)
      × All (λ p. p.cert_dns_env ≡ "") (protocols_of (redact_cert_dns_env cfg).0)
unfolding redact_cert_dns_env merge_cert_dns_env
merge-redact_cert_dns_env none a = (refl, tt)
merge-redact_cert_dns_env (some cfg) a = elim (Option-cases cfg.config) [
  | inl e ↦ let (r, m, q) = without_data cfg e in rw (r, q) (m, tt)
  | inr (d, e) ↦ elim (Option-cases d.protocols) [
    | inl k ↦ let (r, m, q) = without_protocols cfg d e k in rw (r, q) (m, tt)
    | inr (ps, k) ↦
        let (r, q, eta) = with_both cfg d e ps k in
        let a' : Agree ps = subst Agree q a in rw r (restore cfg d ps a' ∙ eta, redacted ps)
  ]
]
