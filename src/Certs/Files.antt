-- ===== src/Certs/Files.antt =====
-- After the certificate of a node was requested, the files that its inbound names are there.
use kknode.Base.{
  String, ◌≡◌, refl, true, ◌&&◌, ◌||◌, [], ◌∷◌, Option, none, some, if◌then◌else◌, arith, inl, inr,
  ◌⊎◌, Bool-cases, ap, ◌∙◌, sym, subst, if-elim,
}
use kknode.Base.Eq.{string_eq, ◌==◌, beq_refl}
use kknode.Base.Map.{load, load-store}
use kknode.Base.Result.{Result, ok, err}
use kknode.Base.Text.{concat}
use kknode.Panel.{NodeInfo}
use kknode.Inbounds.{cert_path}
use kknode.Outbounds.Settings.Supported.{one_of}
use kknode.Certs.{
  CertError, not_obtained, call, System, M, ◌>>=◌, ◌>>◌, Refusals, is_exist, write_file, check_path,
  mkdir_all, has_dir,
}
use kknode.Certs.Lego.{Resource, Acme, new_lego, create_cert, write_cert}
use kknode.Certs.Request.{drop_as, overwrite_file, generate_self_ssl_certificate, request_cert}

-- A chain that succeeds has a first step that does.
first_ok :
    {A B : Type 0} (m : M A) (f : A → M B) (d : System) {b : B}
    → ((m >>= f) d).1 ≡ ok b
    → (a : A) × ((m d).1 ≡ ok a) × ((m >>= f) d ≡ f a (m d).0)
first_ok {A} {B} m f d {b} e = split (m d).1 e
  where
    go : Result CertError A → System × Result CertError B
    go r = elim r [ ok a ↦ f a (m d).0 | err e ↦ ((m d).0, err e) ]

    split : (r : Result CertError A) → (go r).1 ≡ ok b → (a : A) × (r ≡ ok a) × (go r ≡ f a (m d).0)
    split (ok a) h = (a, refl, refl)
    split (err e) h = cc

pub making_mode :
    (mode : String)
    → one_of mode ("dns" ∷ "http" ∷ "self" ∷ []) ≡ true
    → (mode ≡ "dns") ⊎ ((mode ≡ "http") ⊎ (mode ≡ "self"))
making_mode mode m = elim (Bool-cases (mode == "dns")) [
  | inl e ↦ inl ((string_eq.beq_iff mode "dns").0 e)
  | inr n ↦ elim (Bool-cases (mode == "http")) [
    | inl e ↦ inr (inl ((string_eq.beq_iff mode "http").0 e))
    | inr n' ↦ inr (inr ((string_eq.beq_iff mode "self").0 (ground arith)))
  ]
]

-- The branches of a mode that makes a certificate.
made_for :
    {A : Type 0} (P : A → Type 0) (mode : String) (keep lego self bad : A)
    → one_of mode ("dns" ∷ "http" ∷ "self" ∷ []) ≡ true
    → P lego
    → P self
    → P (
        if mode == "none" || mode == "" || mode == "file"
        then keep
        else if mode == "dns" || mode == "http"
        then lego
        else if mode == "self"
        then self
        else bad)
made_for {A} P mode keep lego self bad m p q = elim (making_mode mode m) [
  | inl e ↦ subst Q (sym e) p
  | inr (inl e) ↦ subst Q (sym e) p
  | inr (inr e) ↦ subst Q (sym e) q
]
  where
    Q : String → Type 0
    Q mode = P (
        if mode == "none" || mode == "" || mode == "file"
        then keep
        else if mode == "dns" || mode == "http"
        then lego
        else if mode == "self"
        then self
        else bad)

module _ (os : Refusals) where
  -- Both files are there.
  abbrev pub BothExist : String → String → System → Type 0
  BothExist c k d = (is_exist os c d ≡ true) × (is_exist os k d ≡ true)

  write_file-is_exist :
      (path text : String) (d : System)
      → (write_file os path text d).1 ≡ ok tt
      → is_exist os path (write_file os path text d).0 ≡ true
  unfolding write_file is_exist
  write_file-is_exist path text d h =
      ground (arith, load-store path path text d.files, beq_refl path)

  write_file-keeps :
      (path text other : String) (d : System)
      → is_exist os other d ≡ true
      → is_exist os other (write_file os path text d).0 ≡ true
  unfolding write_file is_exist
  write_file-keeps path text other d h = ground (arith, load-store path other text d.files)

  check_path-keeps :
      (path other : String) (d : System)
      → is_exist os other d ≡ true
      → is_exist os other (check_path os path d).0 ≡ true
  unfolding check_path is_exist mkdir_all has_dir
  check_path-keeps path other d h = ground arith

  overwrite_file-is_exist :
      (path text : String) (d : System)
      → (overwrite_file os path text d).1 ≡ ok tt
      → is_exist os path (overwrite_file os path text d).0 ≡ true
  unfolding overwrite_file is_exist
  overwrite_file-is_exist path text d h =
      let new : String =
        concat (text ∷ drop_as text (elim (load path d.files) [ none ↦ "" | some t ↦ t ]) ∷ []) in
      ground (arith, load-store path path new d.files, beq_refl path)

  overwrite_file-keeps :
      (path text other : String) (d : System)
      → is_exist os other d ≡ true
      → is_exist os other (overwrite_file os path text d).0 ≡ true
  unfolding overwrite_file is_exist
  overwrite_file-keeps path text other d h =
      let new : String =
        concat (text ∷ drop_as text (elim (load path d.files) [ none ↦ "" | some t ↦ t ]) ∷ []) in
      ground (arith, load-store path other new d.files)

  -- Two writes, with a look at the directory between them, leave both files.
  two_writes :
      (c k x y : String) (d : System)
      → ((write_file os c x >> (check_path os k >> write_file os k y)) d).1 ≡ ok tt
      → BothExist c k ((write_file os c x >> (check_path os k >> write_file os k y)) d).0
  two_writes c k x y d h =
      let (_, w, e) =
        first_ok (write_file os c x) (λ _. check_path os k >> write_file os k y) d h in
      let d1 = (write_file os c x d).0 in
      let here : is_exist os c d1 ≡ true = write_file-is_exist c x d w in
      let (_, w', e') =
        first_ok (check_path os k) (λ _. write_file os k y) d1 (sym (ap (λ r. r.1) e) ∙ h) in
      let d2 = (check_path os k d1).0 in
      let last : (write_file os k y d2).1 ≡ ok tt = sym (ap (λ r. r.1) (e ∙ e')) ∙ h in
      subst (λ (r : System × Result CertError (Unit {0})). BothExist c k r.0) (sym (e ∙ e'))
        (write_file-keeps k y c d2 (check_path-keeps k c d1 here), write_file-is_exist k y d2 last)

  two_overwrites :
      (c k x y : String) (d : System)
      → ((overwrite_file os c x >> overwrite_file os k y) d).1 ≡ ok tt
      → BothExist c k ((overwrite_file os c x >> overwrite_file os k y) d).0
  two_overwrites c k x y d h =
      let (_, w, e) = first_ok (overwrite_file os c x) (λ _. overwrite_file os k y) d h in
      let d1 = (overwrite_file os c x d).0 in
      let last : (overwrite_file os k y d1).1 ≡ ok tt = sym (ap (λ r. r.1) e) ∙ h in
      subst (λ (r : System × Result CertError (Unit {0})). BothExist c k r.0) (sym e)
        (
          overwrite_file-keeps k y c d1 (overwrite_file-is_exist c x d w),
          overwrite_file-is_exist k y d1 last,
        )

  -- A chain whose later steps leave both files does so.
  chain-BothExist :
      {A : Type 0} (c k : String) (m : M A) (f : A → M (Unit {0})) (d : System)
      → ((a : A) (s : System) → (f a s).1 ≡ ok tt → BothExist c k (f a s).0)
      → ((m >>= f) d).1 ≡ ok tt
      → BothExist c k ((m >>= f) d).0
  chain-BothExist c k m f d leaves h =
      let (a, _, e) = first_ok m f d h in
      subst (λ (r : System × Result CertError (Unit {0})). BothExist c k r.0) (sym e)
        (leaves a (m d).0 (sym (ap (λ r. r.1) e) ∙ h))

  module _ (io : Acme) where
    write_cert-BothExist :
        (info : NodeInfo) (api_dir : String) (r : Resource) (d : System)
        → (write_cert io os info api_dir r d).1 ≡ ok tt
        → BothExist
            (cert_path ".cer" api_dir info)
            (cert_path ".key" api_dir info)
            (write_cert io os info api_dir r d).0
    unfolding write_cert
    write_cert-BothExist info api_dir r d =
        let c = cert_path ".cer" api_dir info in
        let k = cert_path ".key" api_dir info in
        chain-BothExist c k (check_path os c) _ d
          (λ _ s. two_writes c k r.certificate r.private_key s)

    generate-BothExist :
        (self_signed : String → Option Resource) (domain c k : String) (d : System)
        → (generate_self_ssl_certificate io os self_signed domain c k d).1 ≡ ok tt
        → BothExist c k (generate_self_ssl_certificate io os self_signed domain c k d).0
    unfolding generate_self_ssl_certificate
    generate-BothExist self_signed domain c k d =
        chain-BothExist c k (call (self_signed domain) not_obtained) _ d
          (λ made s. two_overwrites c k made.certificate made.private_key s)

    create_cert-BothExist :
        (info : NodeInfo) (api_dir : String) (l : io.Client) (d : System)
        → (create_cert io os info api_dir l d).1 ≡ ok tt
        → BothExist
            (cert_path ".cer" api_dir info)
            (cert_path ".key" api_dir info)
            (create_cert io os info api_dir l d).0
    unfolding create_cert
    create_cert-BothExist info api_dir l d =
        chain-BothExist (cert_path ".cer" api_dir info) (cert_path ".key" api_dir info)
          (call (io.obtain (info.protocol.sni ∷ []) l) not_obtained) _ d
          (λ r s. write_cert-BothExist info api_dir r s)

    -- Where it succeeds for a mode that makes a certificate, `requestCert` leaves both files.
    pub request_cert-BothExist :
        (self_signed : String → Option Resource) (info : NodeInfo) (api_dir : String) (d : System)
        → one_of info.protocol.cert_mode ("dns" ∷ "http" ∷ "self" ∷ []) ≡ true
        → (request_cert io os self_signed info api_dir d).1 ≡ ok tt
        → BothExist
            (cert_path ".cer" api_dir info)
            (cert_path ".key" api_dir info)
            (request_cert io os self_signed info api_dir d).0
    unfolding request_cert
    request_cert-BothExist self_signed info api_dir d m h =
        let c = cert_path ".cer" api_dir info in
        let k = cert_path ".key" api_dir info in
        let P = λ (r : System × Result CertError (Unit {0})). r.1 ≡ ok tt → BothExist c k r.0 in
        let both = is_exist os c d && is_exist os k d in
        let there : both ≡ true → P (d, ok tt) = λ t _. (ground arith, ground arith) in
        made_for P info.protocol.cert_mode _ _ _ _ m
          (if-elim P both _ _ there (λ _.
            chain-BothExist c k (new_lego io os info api_dir)
              (λ l. create_cert io os info api_dir l) d
              (λ l s. create_cert-BothExist info api_dir l s)))
          (if-elim P both _ _ there (λ _. generate-BothExist self_signed info.protocol.sni c k d)) h
