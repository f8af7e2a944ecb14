-- ===== src/Base/Text/Paths.antt =====
-- Of `path/filepath`: `Join` of a directory and a name, with `Clean`, as on Unix; and `hex` of bytes.
use Prim.Native.Nat.{◌/◌, ◌%◌}
use Prim.Native.Char.{code}
use Prim.Native.String.{String, char_at}
use mathlib.Core.Bool.{Bool, not, ◌&&◌, ◌||◌}
use mathlib.Core.List.{List, [], ◌∷◌, reverse}
use mathlib.Core.Option.{Option, none, some}
use kknode.Base.Tests.{if◌then◌else◌, ◌==◌ as eq_ℕ}
use kknode.Base.Eq.{string_eq, ◌==◌}
use kknode.Base.Text.{concat, join, has_prefix, split}

-- The elements that stay, the last first. Above the root there is nothing.
push_element : Bool → String → List String → List String
push_element rooted e [] =
    if e == "" || e == "." then [] else if e == ".." && rooted then [] else e ∷ []
push_element rooted e (d ∷ ds) =
    if e == "" || e == "." then d ∷ ds else if e == ".." && not (d == "..") then ds else e ∷ d ∷ ds

clean_elements : Bool → List String → List String → List String
unfolding push_element
clean_elements rooted [] out = reverse out
clean_elements rooted (e ∷ es) out = clean_elements rooted es (push_element rooted e out)

-- `filepath.Clean`
unfoldable pub clean : String → String
unfolding clean_elements
clean path =
    let rooted = has_prefix path "/" in
    let cleaned = join "/" (clean_elements rooted (split b'/' path) []) in
    if rooted then concat ("/" ∷ cleaned ∷ []) else if cleaned == "" then "." else cleaned

-- `filepath.Join(dir, name)`
unfoldable pub join_path : String → String → String
unfolding clean
join_path dir name =
    if dir == ""
    then if name == "" then "" else clean name
    else clean (concat (dir ∷ "/" ∷ name ∷ []))

-- `hex.EncodeToString`, of a text whose code points are bytes
unfoldable pub hex_of : String → String
hex_of String.[] = ""
hex_of (String.◌∷◌ c s) =
    String.◌∷◌ (char_at "0123456789abcdef" (code c / 16))
      (String.◌∷◌ (char_at "0123456789abcdef" (code c % 16)) (hex_of s))

-- a text up to its last slash, which it ends with; `none` where it has no slash
before_slash : String → Option String
before_slash String.[] = none
before_slash (String.◌∷◌ c s) = elim (before_slash s) [
  | some r ↦ some (String.◌∷◌ c r)
  | none ↦ if eq_ℕ (code c) b'/' then some (String.◌∷◌ c "") else none
]

-- `path.Dir`
unfoldable pub dir_of : String → String
unfolding before_slash clean
dir_of path = elim (before_slash path) [ none ↦ "." | some d ↦ clean d ]
