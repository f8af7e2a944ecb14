-- ===== src/Base/Text.antt =====
-- Go's strings, as texts over code points, and the parts of the packages `strings`, `strconv` and
-- `fmt` that the program calls. Of `strings.ToLower` the model has every code point whose lower
-- case is ASCII; other letters stay, which no comparison with an ASCII literal can tell.
pub mod Numbers
pub mod Base64
pub mod Paths
use Prim.Native.Nat.{ℕ, zero, suc, ◌+◌, ◌-◌, ◌*◌, ◌/◌, ◌%◌, ◌^◌}
use Prim.Native.Char.{Char, code}
use Prim.Native.String
use Prim.Native.String.{String, char_at}
use mathlib.Core.Bool.{Bool, true, false, ◌&&◌, ◌||◌}
use mathlib.Core.Option.{Option, none, some}
use mathlib.Core.List.{List, [], ◌∷◌}
use kknode.Base.Tests.{ltb, leb, ◌==◌, if◌then◌else◌}
use kknode.Base.Int.{ℤ, pos, negsuc, sub_ℕ}

-- What `fmt.Sprintf` and `+` do with the pieces of a text.
abbrev pub concat : List String → String
concat [] = ""
concat (s ∷ []) = s
concat (s ∷ t ∷ r) = String.◌++◌ s (concat (t ∷ r))

-- `strings.Join`
unfoldable pub join : String → List String → String
join sep [] = ""
join sep (s ∷ []) = s
join sep (s ∷ t ∷ r) = String.◌++◌ s (String.◌++◌ sep (join sep (t ∷ r)))

-- `unicode.IsSpace`
is_space : ℕ → Bool
is_space n =
    (leb 9 n && leb n 13)
    || n == 32
    || n == 0x85
    || n == 0xa0
    || n == 0x1680
    || (leb 0x2000 n && leb n 0x200a)
    || n == 0x2028
    || n == 0x2029
    || n == 0x202f
    || n == 0x205f
    || n == 0x3000

trim_left : String → String
unfolding is_space
trim_left String.[] = ""
trim_left (String.◌∷◌ c s) = if is_space (code c) then trim_left s else String.◌∷◌ c s

-- A blank character in front of nothing goes, any other stays.
keep_before : Char → String → String
unfolding is_space
keep_before c String.[] = if is_space (code c) then "" else String.◌∷◌ c ""
keep_before c (String.◌∷◌ d s) = String.◌∷◌ c (String.◌∷◌ d s)

trim_right : String → String
unfolding keep_before
trim_right String.[] = ""
trim_right (String.◌∷◌ c s) = keep_before c (trim_right s)

-- `strings.TrimSpace`
unfoldable pub trim_space : String → String
unfolding trim_left trim_right
trim_space s = trim_right (trim_left s)

lower_char : Char → Char
lower_char c =
    let n = code c in
    if leb b'A' n && leb n b'Z'
    then char_at "abcdefghijklmnopqrstuvwxyz" (n - b'A')
    else if n == 0x212a
    then char_at "k" 0
    else if n == 0x130
    then char_at "i" 0
    else c

-- `strings.ToLower`
unfoldable pub to_lower : String → String
unfolding lower_char
to_lower String.[] = ""
to_lower (String.◌∷◌ c s) = String.◌∷◌ (lower_char c) (to_lower s)

-- `strings.HasPrefix`
unfoldable pub has_prefix : String → String → Bool
has_prefix s String.[] = true
has_prefix String.[] (String.◌∷◌ d t) = false
has_prefix (String.◌∷◌ c s) (String.◌∷◌ d t) = code c == code d && has_prefix s t

-- What follows the prefix `t`, if the text begins with it.
unfoldable pub strip_prefix : String → String → Option String
strip_prefix s String.[] = some s
strip_prefix String.[] (String.◌∷◌ d t) = none
strip_prefix (String.◌∷◌ c s) (String.◌∷◌ d t) = if code c == code d then strip_prefix s t else none

-- `strings.TrimPrefix`
unfoldable pub trim_prefix : String → String → String
unfolding strip_prefix
trim_prefix s t = elim (strip_prefix s t) [ none ↦ s | some r ↦ r ]

-- `strings.Contains`
unfoldable pub contains : String → String → Bool
unfolding has_prefix
contains String.[] t = has_prefix "" t
contains (String.◌∷◌ c s) t = has_prefix (String.◌∷◌ c s) t || contains s t

-- `strings.SplitN(s, sep, 2)` for a separator of one code point: what stands before and after its
-- first place, or `none` if it has no place, where Go returns the whole text alone.
unfoldable pub cut : ℕ → String → Option (String × String)
cut sep String.[] = none
cut sep (String.◌∷◌ c s) =
    let rest : Option (String × String) = elim (cut sep s) [
      | none ↦ none
      | some (a, b) ↦ some (String.◌∷◌ c a, b)
    ] in
    if code c == sep then some ("", s) else rest

-- A character goes to the first of the pieces.
abbrev push_front : Char → List String → List String
push_front c [] = String.◌∷◌ c "" ∷ []
push_front c (p ∷ ps) = String.◌∷◌ c p ∷ ps

-- `strings.Split(s, sep)` for a separator of one code point.
unfoldable pub split : ℕ → String → List String
split sep String.[] = "" ∷ []
split sep (String.◌∷◌ c s) =
    let ps = split sep s in if code c == sep then "" ∷ ps else push_front c ps

-- the fields of a text, and whether its first character continues the first of them
fields_open : String → Bool × List String
unfolding is_space
fields_open String.[] = (false, [])
fields_open (String.◌∷◌ c s) =
    let (inside, fs) = fields_open s in
    if is_space (code c)
    then (false, fs)
    else (true, if inside then push_front c fs else String.◌∷◌ c "" ∷ fs)

-- `strings.Fields`
unfoldable pub fields_of : String → List String
unfolding fields_open
fields_of s = (fields_open s).1

digit : ℕ → Char
digit d = char_at "0123456789" d

-- the decimal digits of a number below 10 to the power of the fuel
digits : ℕ → ℕ → String → String
unfolding digit
digits zero n out = out
digits (suc f) n out =
    let more = digits f (n / 10) (String.◌∷◌ (digit (n % 10)) out) in
    if ltb n 10 then String.◌∷◌ (digit n) out else more

-- `strconv.Itoa`, and `%d`. An `int` has 19 digits at most; 20 rounds are enough.
unfoldable pub itoa : ℤ → String
unfolding digits
itoa (pos n) = digits 20 n ""
itoa (negsuc n) = concat ("-" ∷ digits 20 (suc n) "" ∷ [])

-- The value of a text of digits that follows a number; `none` where another character stands.
digits_value : String → ℕ → Option ℕ
digits_value String.[] n = some n
digits_value (String.◌∷◌ c s) n =
    if leb b'0' (code c) && leb (code c) b'9'
    then digits_value s (n * 10 + (code c - b'0'))
    else none

unsigned_value : String → Option ℕ
unfolding digits_value
unsigned_value String.[] = none
unsigned_value (String.◌∷◌ c s) = digits_value (String.◌∷◌ c s) 0

abbrev below : ℕ → Option ℕ → Option ℕ
below m none = none
below m (some n) = if ltb n m then some n else none

-- `strconv.Atoi`: an optional sign, then digits, in the range of `int`.
unfoldable pub atoi : String → Option ℤ
unfolding unsigned_value
atoi String.[] = none
atoi (String.◌∷◌ c s) =
    if code c == b'-'
    then elim (below (2 ^ 63 + 1) (unsigned_value s)) [ none ↦ none | some n ↦ some (sub_ℕ 0 n) ]
    else if code c == b'+'
    then elim (below (2 ^ 63) (unsigned_value s)) [ none ↦ none | some n ↦ some (pos n) ]
    else elim (below (2 ^ 63) (unsigned_value (String.◌∷◌ c s))) [
      | none ↦ none
      | some n ↦ some (pos n)
    ]
