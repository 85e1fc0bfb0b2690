-- ===== src/GoldenSuite/Hex.antt =====
-- `sha256Hex` and `isLowerHex`, with the parts of encoding/hex that they call.
pub mod Laws
use Prim.Native.Char.{Char, code}
use Prim.Native.String.{len}
use Prim.Native.String
use truthmetal.Base.{ℕ, zero, suc, ◌/◌, ◌%◌, String, Bool, true, false, ◌&&◌, ◌||◌, List, [], ◌∷◌}
use truthmetal.Base.{◌==◌, ◌!=◌, leb, nat_eq, not, if◌then◌else◌}
use truthmetal.GoldenSuite.Libs.{Libs}

-- `hextable`, and an entry of it; the nibbles of bytes are in range.
abbrev pub hex_table : List Char
hex_table =
    "0" ∷ "1" ∷ "2" ∷ "3" ∷ "4" ∷ "5" ∷ "6" ∷ "7" ∷ "8" ∷ "9" ∷ "a" ∷ "b" ∷ "c" ∷ "d" ∷ "e" ∷ "f"
    ∷ []

abbrev pub entry : List Char → ℕ → Char
entry [] n = "f"
entry (c ∷ cs) zero = c
entry (c ∷ cs) (suc n) = entry cs n

unfoldable pub hex_char : ℕ → Char
hex_char n = entry hex_table n

-- `hex.EncodeToString`
unfoldable pub encode_to_string : List ℕ → String
encode_to_string [] = ""
encode_to_string (b ∷ bs) =
    String.◌∷◌ (hex_char (b / 16)) (String.◌∷◌ (hex_char (b % 16)) (encode_to_string bs))

-- `0-9`, `a-f` and `A-F`
unfoldable pub is_hex_digit : ℕ → Bool
is_hex_digit c = leb b'0' c && leb c b'9' || leb b'a' c && leb c b'f' || leb b'A' c && leb c b'F'

-- `hex.DecodeString` returns no error: an even number of digits and nothing else.
unfoldable pub decodes : String → Bool
decodes String.[] = true
decodes (String.◌∷◌ c String.[]) = false
decodes (String.◌∷◌ c (String.◌∷◌ d s)) =
    is_hex_digit (code c) && is_hex_digit (code d) && decodes s

module _ (lib : Libs) where
  unfoldable pub sha256_hex : List ℕ → String
  sha256_hex content = encode_to_string (lib.sha256_sum content)

  unfoldable pub is_lower_hex : String → ℕ → Bool
  is_lower_hex value length =
      if not (nat_eq (len value) length) || value != lib.to_lower value
      then false
      else decodes value
