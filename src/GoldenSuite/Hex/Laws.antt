-- ===== src/GoldenSuite/Hex/Laws.antt =====
-- What `isLowerHex` accepts, and that the digests of `sha256Hex` are among it.
use Prim.Native.Char.{Char, code, len_utf8, len_utf8_def}
use Prim.Native.String.{len}
use Prim.Native.String.len as len_laws
use truthmetal.Base.{
  ℕ, zero, suc, ◌*◌, ◌%◌, ◌/◌, String, ◌≡◌, refl, ◌↔◌, ◌∙◌, sym, Bool, true, not, ◌&&◌, ◌||◌, List,
  [], ◌∷◌, arith, leb, ltb, length, All,
}
use truthmetal.GoldenSuite.Libs.{Libs}
use truthmetal.GoldenSuite.Hex.{
  hex_table, entry, hex_char, encode_to_string, is_hex_digit, decodes, sha256_hex, is_lower_hex,
}

abbrev pub all_chars : (ℕ → Bool) → String → Bool
all_chars p String.[] = true
all_chars p (String.◌∷◌ c s) = p (code c) && all_chars p s

abbrev pub is_ascii : ℕ → Bool
is_ascii c = ltb c 128

abbrev pub is_not_upper : ℕ → Bool
is_not_upper c = not (leb b'A' c && leb c b'Z')

-- `0-9` and `a-f`
abbrev pub is_lower_digit : ℕ → Bool
is_lower_digit c = leb b'0' c && leb c b'9' || leb b'a' c && leb c b'f'

-- What the documentation of `strings.ToLower` says of ASCII: it changes `A` to `Z` alone.
pub record LowersAscii (lib : Libs) : Type 0 where
  pub fixes :
      (s : String)
      → all_chars is_ascii s ≡ true
      → (lib.to_lower s ≡ s) ↔ (all_chars is_not_upper s ≡ true)

all_chars_mono :
    (p q : ℕ → Bool)
    → ((c : ℕ) → p c ≡ true → q c ≡ true)
    → (s : String) → all_chars p s ≡ true
    → all_chars q s ≡ true
all_chars_mono p q f String.[] h = refl
all_chars_mono p q f (String.◌∷◌ c s) h = ground (arith, f (code c), all_chars_mono p q f s)

all_chars_both :
    (p q r : ℕ → Bool)
    → ((c : ℕ) → p c ≡ true → q c ≡ true → r c ≡ true)
    → (s : String) → all_chars p s ≡ true
    → all_chars q s ≡ true
    → all_chars r s ≡ true
all_chars_both p q r f String.[] h k = refl
all_chars_both p q r f (String.◌∷◌ c s) h k = ground (arith, f (code c), all_chars_both p q r f s)

digit_ascii : (c : ℕ) → is_hex_digit c ≡ true → is_ascii c ≡ true
unfolding is_hex_digit
digit_ascii c h = ground arith

lower_digit-hex : (c : ℕ) → is_lower_digit c ≡ true → is_hex_digit c ≡ true
unfolding is_hex_digit
lower_digit-hex c h = ground arith

lower_digit-not_upper : (c : ℕ) → is_lower_digit c ≡ true → is_not_upper c ≡ true
lower_digit-not_upper c h = ground arith

hex_not_upper : (c : ℕ) → is_hex_digit c ≡ true → is_not_upper c ≡ true → is_lower_digit c ≡ true
unfolding is_hex_digit
hex_not_upper c h k = ground arith

len_utf8_ascii : (c : Char) → is_ascii (code c) ≡ true → len_utf8 c ≡ 1
len_utf8_ascii c h = len_utf8_def c ∙ ground arith

len-cons_ascii :
    (c : Char) (s : String) → is_hex_digit (code c) ≡ true → len (String.◌∷◌ c s) ≡ suc (len s)
len-cons_ascii c s h = len_laws.cons c s ∙ omega (arith, len_utf8_ascii c (digit_ascii (code c) h))

decodes_digits : (s : String) → decodes s ≡ true → all_chars is_hex_digit s ≡ true
unfolding decodes
decodes_digits String.[] h = refl
decodes_digits (String.◌∷◌ c String.[]) h = cc
decodes_digits (String.◌∷◌ c (String.◌∷◌ d s)) h = ground (arith, decodes_digits s)

decodes_even : (s : String) → decodes s ≡ true → len s % 2 ≡ 0
unfolding decodes
decodes_even String.[] h = refl
decodes_even (String.◌∷◌ c String.[]) h = cc
decodes_even (String.◌∷◌ c (String.◌∷◌ d s)) h =
    ground (arith, decodes_even s, len-cons_ascii c (String.◌∷◌ d s), len-cons_ascii d s)

decodes_complete : (s : String) → all_chars is_hex_digit s ≡ true → len s % 2 ≡ 0 → decodes s ≡ true
unfolding decodes
decodes_complete String.[] h e = refl
decodes_complete (String.◌∷◌ c String.[]) h e = absurd (ground (arith, len-cons_ascii c String.[]))
decodes_complete (String.◌∷◌ c (String.◌∷◌ d s)) h e =
    ground (arith, decodes_complete s, len-cons_ascii c (String.◌∷◌ d s), len-cons_ascii d s)

module _ (lib : Libs) where
  record Tests (s : String) (n : ℕ) : Type 0 where
    size : len s ≡ n
    lower : s ≡ lib.to_lower s
    digits : decodes s ≡ true

  is_lower_hex_conditions : (s : String) (n : ℕ) → (is_lower_hex lib s n ≡ true) ↔ Tests s n
  unfolding is_lower_hex
  is_lower_hex_conditions s n = (λ h. ground arith, λ t. ground (arith, t.size, t.lower, t.digits))

  -- If `strings.ToLower` lowers ASCII text as documented, `isLowerHex(s, n)` holds exactly of the
  -- strings of n bytes, n even, that consist of the digits 0-9 and a-f.
  pub is_lower_hex_iff :
      LowersAscii lib
      → (s : String) (n : ℕ)
      → (is_lower_hex lib s n ≡ true)
        ↔ ((len s ≡ n) × (n % 2 ≡ 0) × (all_chars is_lower_digit s ≡ true))
  is_lower_hex_iff lowers s n = (
    λ h.
        let t = (is_lower_hex_conditions s n).0 h in
        let digits = decodes_digits s t.digits in
        let ascii = all_chars_mono is_hex_digit is_ascii digit_ascii s digits in
        let not_upper = (lowers.fixes s ascii).0 (sym t.lower) in
        (
          t.size,
          omega (arith, t.size, decodes_even s t.digits),
          all_chars_both is_hex_digit is_not_upper is_lower_digit hex_not_upper s digits not_upper,
        ),
    λ (size, even, lower).
        let digits = all_chars_mono is_lower_digit is_hex_digit lower_digit-hex s lower in
        let ascii = all_chars_mono is_hex_digit is_ascii digit_ascii s digits in
        let not_upper = all_chars_mono is_lower_digit is_not_upper lower_digit-not_upper s lower in
        (is_lower_hex_conditions s n).1 (record {
          size = size;
          lower = sym ((lowers.fixes s ascii).1 not_upper);
          digits = decodes_complete s digits (omega (arith, size, even));
        }),
  )

entry_lower :
    (cs : List Char) (n : ℕ)
    → All (λ c. is_lower_digit (code c) ≡ true) cs
    → is_lower_digit (code (entry cs n)) ≡ true
entry_lower [] n h = refl
entry_lower (c ∷ cs) zero (h, _) = h
entry_lower (c ∷ cs) (suc n) (_, h) = entry_lower cs n h

hex_table-lower : All (λ c. is_lower_digit (code c) ≡ true) hex_table
hex_table-lower = (
  refl,
  (
    refl,
    (
      refl,
      (
        refl,
        (
          refl,
          (
            refl,
            (refl, (refl, (refl, (refl, (refl, (refl, (refl, (refl, (refl, (refl, tt)))))))))),
          ),
        ),
      ),
    ),
  ),
)

hex_char-lower : (n : ℕ) → is_lower_digit (code (hex_char n)) ≡ true
unfolding hex_char
hex_char-lower n = entry_lower hex_table n hex_table-lower

encode_lower : (bytes : List ℕ) → all_chars is_lower_digit (encode_to_string bytes) ≡ true
unfolding encode_to_string
encode_lower [] = refl
encode_lower (b ∷ bytes) =
    ground (arith, hex_char-lower (b / 16), hex_char-lower (b % 16), encode_lower bytes)

len-encode : (bytes : List ℕ) → len (encode_to_string bytes) ≡ 2 * length bytes
unfolding encode_to_string
len-encode [] = refl
len-encode (b ∷ bytes) =
    let hi = hex_char (b / 16) in
    let lo = hex_char (b % 16) in
    let rest = encode_to_string bytes in
    len-cons_ascii hi (String.◌∷◌ lo rest) (lower_digit-hex (code hi) (hex_char-lower (b / 16)))
    ∙ omega (
      arith,
      len-cons_ascii lo rest (lower_digit-hex (code lo) (hex_char-lower (b % 16))),
      len-encode bytes,
    )

-- If `strings.ToLower` lowers ASCII text as documented and a SHA-256 digest has 32 bytes, then
-- `isLowerHex(sha256Hex(content), 64)`: a pinned hash has the form that is asked of the
-- source's hashes.
pub is_lower_hex-sha256_hex :
    (lib : Libs)
    → LowersAscii lib
    → ((content : List ℕ) → length (lib.sha256_sum content) ≡ 32)
    → (content : List ℕ) → is_lower_hex lib (sha256_hex lib content) 64 ≡ true
unfolding sha256_hex
is_lower_hex-sha256_hex lib lowers size content =
    let digest = lib.sha256_sum content in
    (is_lower_hex_iff lib lowers (encode_to_string digest) 64).1
      (omega (arith, len-encode digest, size content), refl, encode_lower digest)
