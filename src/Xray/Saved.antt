-- ===== src/Xray/Saved.antt =====
-- What the start of a core leaves on disk.
use kknode.Base.{
  String, ◌≡◌, refl, Bool, true, false, ◌⊎◌, inl, inr, List, Option, none, some, All, if-elim, ◌∙◌,
  sym, subst, if◌then◌else◌,
}
use kknode.Base.Eq.{string_eq, ◌==◌}
use kknode.Base.Map.{load, load-store, load-delete}
use kknode.Base.Result.{Result}
use kknode.Base.Text.Paths.{join_path}
use kknode.Panel.{ServerConfigResponse}
use kknode.Panel.Secrets.{redact_cert_dns_env}
use kknode.Panel.Secrets.Restore.{protocols_of, redact_cert_dns_env-empty}
use kknode.Outbounds.Custom.{InterfaceAddr, DnsConfig, CoreRule, OutboundBuilder, Parsers}
use kknode.Certs.{System, CertError, Refusals, write_file}
use kknode.Xray.{Engine, XrayCore, remove_file, save_text, save_node, save_config, start_core}
use kknode.Xray.Config.{CoreConfig, core_config_of}

-- The configuration holds no credentials.
abbrev pub NoSecrets : ServerConfigResponse → Type 0
NoSecrets c = All (λ p. p.cert_dns_env ≡ "") (protocols_of (some c))

redact-NoSecrets :
    (cfg r : ServerConfigResponse) → (redact_cert_dns_env (some cfg)).0 ≡ some r → NoSecrets r
redact-NoSecrets cfg r e =
    subst (λ o. All (λ p. p.cert_dns_env ≡ "") (protocols_of o)) e (redact_cert_dns_env-empty cfg)

-- The file is as it was, or it was removed, or it holds a text that was saved.
abbrev pub Same : String → System → System → Type 0
Same p s' s = load p s'.files ≡ load p s.files

abbrev pub Removed : String → System → Type 0
Removed p s' = load p s'.files ≡ none

remove_file-Same :
    (os : Refusals) (path : String) (s : System) (p : String)
    → Same p (remove_file os path s) s ⊎ ((p ≡ path) × Removed p (remove_file os path s))
unfolding remove_file
remove_file-Same os path s p =
    if-elim (λ (s' : System). Same p s' s ⊎ ((p ≡ path) × Removed p s')) (os.refuses path) s _
      (λ _. inl refl) (λ _. deleted (path == p) refl (load-delete path p s.files))
  where
    deleted :
        {o : Option String} (b : Bool)
        → (path == p) ≡ b
        → o ≡ (if b then none else load p s.files)
        → o ≡ load p s.files ⊎ ((p ≡ path) × (o ≡ none))
    deleted true e h = inr (sym ((string_eq.beq_iff path p).0 e), h)
    deleted false e h = inl h

save_text-Same :
    (os : Refusals) (path : String) (text : Option String) (s : System) (p : String)
    → Same p (save_text os path text s) s
      ⊎ ((p ≡ path)
          × ((t : String) × (text ≡ some t) × (load p (save_text os path text s).files ≡ some t)))
unfolding save_text write_file
save_text-Same os path none s p = inl refl
save_text-Same os path (some text) s p =
    if-elim
      (λ (r : System × Result CertError (Unit {0})).
        Same p r.0 s
        ⊎ ((p ≡ path) × ((t : String) × (some text ≡ some t) × (load p r.0.files ≡ some t))))
      (os.refuses path) _ _ (λ _. inl refl)
      (λ _. stored (path == p) refl (load-store path p text s.files))
  where
    stored :
        {o : Option String} (b : Bool)
        → (path == p) ≡ b
        → o ≡ (if b then some text else load p s.files)
        → o ≡ load p s.files ⊎ ((p ≡ path) × ((t : String) × (some text ≡ some t) × (o ≡ some t)))
    stored true e h = inr (sym ((string_eq.beq_iff path p).0 e), (text, refl, h))
    stored false e h = inl h

module _ {D R : Type 0} (builder : OutboundBuilder) (parsers : Parsers)
    (build_dns : DnsConfig → Option D) (build_router : List CoreRule → Option R)
    (addrs : Option (List InterfaceAddr)) (engine : Engine D builder.Built R) (os : Refusals)
    (v : XrayCore engine.Instance) (cfg : ServerConfigResponse) (api_dir : String) where
  -- The text is a configuration without credentials.
  abbrev pub IsRedacted : String → Type 0
  IsRedacted t = (r : ServerConfigResponse) × NoSecrets r × (engine.encode_server r ≡ some t)

  -- The text is the configuration of the core that is made of what the panel sent.
  abbrev pub IsCore : String → Type 0
  IsCore t =
      (k : CoreConfig D builder.Built R) × (core_config_of builder parsers build_dns build_router
          addrs v.config cfg api_dir
        ≡ some k)
      × (engine.encode_core k ≡ some t)

  -- The sidecar with the credentials is gone.
  abbrev pub Dropped : String → System → Type 0
  Dropped p s' = (p ≡ join_path api_dir "cert_env.json") × Removed p s'

  abbrev pub NodeSaved : String → System → Type 0
  NodeSaved p s' =
      (p ≡ join_path api_dir "node.json")
      × ((t : String) × IsRedacted t × (load p s'.files ≡ some t))

  abbrev pub CoreSaved : String → System → Type 0
  CoreSaved p s' =
      (p ≡ join_path api_dir "core.json") × ((t : String) × IsCore t × (load p s'.files ≡ some t))

  -- What may have become of each file.
  abbrev pub Saved : System → System → Type 0
  Saved s' s = (p : String) → Same p s' s ⊎ Dropped p s' ⊎ NodeSaved p s' ⊎ CoreSaved p s'

  -- The fate of a file carries over a step that leaves it as it is.
  carried :
      (p : String) (s s' s'' : System)
      → Same p s'' s'
      → Same p s' s ⊎ Dropped p s' ⊎ NodeSaved p s' ⊎ CoreSaved p s'
      → Same p s'' s ⊎ Dropped p s'' ⊎ NodeSaved p s'' ⊎ CoreSaved p s''
  carried p s s' s'' e (inl k) = inl (e ∙ k)
  carried p s s' s'' e (inr (inl (q, k))) = inr (inl (q, e ∙ k))
  carried p s s' s'' e (inr (inr (inl (q, (t, k, m))))) = inr (inr (inl (q, (t, k, e ∙ m))))
  carried p s s' s'' e (inr (inr (inr (q, (t, k, m))))) = inr (inr (inr (q, (t, k, e ∙ m))))

  save_node-Saved :
      (s : System)
      → Saved (save_node builder parsers build_dns build_router addrs engine os cfg api_dir s) s
  unfolding save_node
  save_node-Saved s p = saved (redact_cert_dns_env (some cfg)).0 refl
    where
      s' : System
      s' = remove_file os (join_path api_dir "cert_env.json") s

      before : Same p s' s ⊎ Dropped p s' ⊎ NodeSaved p s' ⊎ CoreSaved p s'
      before = elim (remove_file-Same os (join_path api_dir "cert_env.json") s p) [
        | inl k ↦ inl k
        | inr k ↦ inr (inl k)
      ]

      Q : System → Type 0
      Q s'' = Same p s'' s ⊎ Dropped p s'' ⊎ NodeSaved p s'' ⊎ CoreSaved p s''

      saved :
          (o : Option ServerConfigResponse)
          → (redact_cert_dns_env (some cfg)).0 ≡ o
          → Q (elim o [
            | none ↦ s'
            | some r ↦ save_text os (join_path api_dir "node.json") (engine.encode_server r) s'
          ])
      saved none e = before
      saved (some r) e =
          elim (save_text-Same os (join_path api_dir "node.json") (engine.encode_server r) s' p) [
            | inl k ↦
                carried p s s'
                  (save_text os (join_path api_dir "node.json") (engine.encode_server r) s') k
                  before
            | inr (q, (t, k, m)) ↦ inr (inr (inl (q, (t, (r, redact-NoSecrets cfg r e, k), m))))
          ]

  save_config-Saved :
      (s : System)
      → Saved
          (save_config builder parsers build_dns build_router addrs engine os v.config cfg api_dir
            s).0
          s
  unfolding save_config
  save_config-Saved s p =
      saved (core_config_of builder parsers build_dns build_router addrs v.config cfg api_dir) refl
    where
      s' : System
      s' = save_node builder parsers build_dns build_router addrs engine os cfg api_dir s

      Q : System × Bool → Type 0
      Q r = Same p r.0 s ⊎ Dropped p r.0 ⊎ NodeSaved p r.0 ⊎ CoreSaved p r.0

      saved :
          (o : Option (CoreConfig D builder.Built R))
          → core_config_of builder parsers build_dns build_router addrs v.config cfg api_dir ≡ o
          → Q (elim o [
            | none ↦ (s', false)
            | some k ↦
                (save_text os (join_path api_dir "core.json") (engine.encode_core k) s', true)
          ])
      saved none e = save_node-Saved s p
      saved (some c) e =
          elim (save_text-Same os (join_path api_dir "core.json") (engine.encode_core c) s' p) [
            | inl k ↦
                carried p s s'
                  (save_text os (join_path api_dir "core.json") (engine.encode_core c) s') k
                  (save_node-Saved s p)
            | inr (q, (t, k, m)) ↦ inr (inr (inr (q, (t, (c, e, k), m))))
          ]

  -- Whatever the start of a core comes to, each file is as it was before, with three exceptions: the
  -- sidecar `cert_env.json` may be gone; `node.json` may hold a configuration without credentials;
  -- `core.json` may hold the configuration of the core that is made of what the panel sent. With
  -- the local configuration every file is as it was.
  pub start_core-Saved :
      (s : System)
      → Saved
          (start_core builder parsers build_dns build_router addrs engine os cfg api_dir false v
            s).0
          s
        × ((start_core builder parsers build_dns build_router addrs engine os cfg api_dir true v
              s).0
            ≡ s)
  unfolding start_core
  start_core-Saved s = (
    if-elim (λ (r : System × (XrayCore engine.Instance × Result _ (Unit {0}))). Saved r.0 s)
        (save_config builder parsers build_dns build_router addrs engine os v.config cfg api_dir
          s).1
        _ _ (λ _. save_config-Saved s) (λ _. save_config-Saved s),
    refl,
  )
