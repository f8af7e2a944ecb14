-- ===== src/Base/Text/Base64.antt =====
-- `encoding/base64`, the standard encoding with padding, of texts whose code points are bytes; and
-- the slice of the first bytes of such a text.
use Prim.Native.Nat.{ℕ, zero, suc, ◌+◌, ◌*◌, ◌/◌, ◌%◌}
use Prim.Native.Char.{Char, code}
use Prim.Native.String.{String, char_at}
use mathlib.Core.Option.{Option, none, some}

six_bits : ℕ → Char
six_bits n = char_at "ABCDEFGHIJKLMNOPQRSTUVWXYZabcdefghijklmnopqrstuvwxyz0123456789+/" n

padding : Char
padding = char_at "=" 0

-- three bytes to four characters
unfoldable pub encode : String → String
unfolding six_bits padding
encode String.[] = ""
encode (String.◌∷◌ a String.[]) =
    String.◌∷◌ (six_bits (code a / 4))
      (String.◌∷◌ (six_bits (code a % 4 * 16)) (String.◌∷◌ padding (String.◌∷◌ padding "")))
encode (String.◌∷◌ a (String.◌∷◌ b String.[])) = String.◌∷◌ (six_bits (code a / 4)) (
    String.◌∷◌ (six_bits (code a % 4 * 16 + code b / 16))
      (String.◌∷◌ (six_bits (code b % 16 * 4)) (String.◌∷◌ padding "")))
encode (String.◌∷◌ a (String.◌∷◌ b (String.◌∷◌ c s))) = String.◌∷◌ (six_bits (code a / 4)) (
    String.◌∷◌ (six_bits (code a % 4 * 16 + code b / 16)) (
      String.◌∷◌ (six_bits (code b % 16 * 4 + code c / 64))
        (String.◌∷◌ (six_bits (code c % 64)) (encode s))))

-- `s[:n]`; `none` where the text is shorter
unfoldable pub take : ℕ → String → Option String
take zero s = some ""
take (suc n) String.[] = none
take (suc n) (String.◌∷◌ c s) = elim (take n s) [ none ↦ none | some t ↦ some (String.◌∷◌ c t) ]
