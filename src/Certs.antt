-- ===== src/Certs.antt =====
-- node/cert.go and node/lego.go: the certificate of a node. Here are the files, the environment and
-- the steps on them, which common/file/file.go and `checkPath` are part of. What the system refuses
-- is a parameter; a call that fails leaves the files as they are.
pub mod Lego
pub mod Request
pub mod Files
pub mod Served
use kknode.Base.{
  String, Bool, true, false, ◌||◌, List, [], ◌∷◌, Option, none, some, is_some, if◌then◌else◌,
}
use kknode.Base.Eq.{string_eq, ◌==◌}
use kknode.Base.Map.{Map, load, store}
use kknode.Base.Result.{Result, ok, err}
use kknode.Base.Text.{concat, has_prefix}
use kknode.Base.Text.Paths.{dir_of}

pub data CertError : Type 0 where
  system_error no_key no_client not_registered bad_user no_provider not_obtained : CertError
  unsupported_cert_mode : CertError
  -- the pointer `blockPriv` is nil: a panic
  no_pem_block : CertError

-- A directory stands for those above it.
pub record System : Type 0 where
  pub files : Map String String
  pub dirs : List String
  pub env : Map String String

-- Steps that change the system and can fail.
abbrev pub M : Type 0 → Type 0
M A = System → System × Result CertError A

infixl 5 ◌>>=◌ ◌>>◌
abbrev pub ◌>>=◌ : {A B : Type 0} → M A → (A → M B) → M B
◌>>=◌ m f d = elim (m d).1 [ ok a ↦ f a (m d).0 | err e ↦ ((m d).0, err e) ]

abbrev pub ◌>>◌ : {A B : Type 0} → M A → M B → M B
m >> k = m >>= λ _. k

abbrev pub return : {A : Type 0} → A → M A
return a d = (d, ok a)

-- A call with no effect on the system.
abbrev pub call : {A : Type 0} → Option A → CertError → M A
call none e d = (d, err e)
call (some a) e d = (d, ok a)

-- The paths that cannot be written or made, and those that `os.Stat` cannot tell about.
pub record Refusals : Type 0 where
  pub refuses : String → Bool
  pub hides : String → Bool

has_dir : String → List String → Bool
has_dir d [] = false
has_dir d (e ∷ es) = e == d || has_prefix e (concat (d ∷ "/" ∷ [])) || has_dir d es

module _ (os : Refusals) where
  -- `file.IsExist`
  unfoldable pub is_exist : String → System → Bool
  unfolding has_dir
  is_exist path d = os.hides path || is_some (load path d.files) || has_dir path d.dirs

  -- `os.WriteFile`
  unfoldable pub write_file : String → String → M (Unit {0})
  write_file path text d =
      if os.refuses path
      then (d, err system_error)
      else (record d { files = store path text d.files }, ok tt)

  -- `os.ReadFile`
  unfoldable pub read_file : String → M String
  read_file path d =
      if os.hides path
      then (d, err system_error)
      else elim (load path d.files) [ none ↦ (d, err system_error) | some text ↦ (d, ok text) ]

  unfoldable pub mkdir_all : String → M (Unit {0})
  mkdir_all dir d =
      if os.refuses dir then (d, err system_error) else (record d { dirs = dir ∷ d.dirs }, ok tt)

  -- `checkPath`
  unfoldable pub check_path : String → M (Unit {0})
  unfolding mkdir_all
  check_path p d = if is_exist (dir_of p) d then (d, ok tt) else mkdir_all (dir_of p) d
