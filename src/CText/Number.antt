-- ===== src/CText/Number.antt =====
-- The Arduino core's printing of numbers, as its documentation states it, and what `strtol` reads
-- back from it.
use sensaurus.Prelude.{
  ℕ, ◌+◌, ◌-◌, ◌*◌, ◌^◌, ◌<◌, ◌≡◌, refl, arith, true, false, [], ◌∷◌, ◌||◌, some, leb, ◌==◌,
  Bool-cases, inl, inr, if◌then◌else◌, Text, All,
}
use sensaurus.CText.{
  within, is_space, hex_value, hex_digits, skip_prefix, skip_spaces, strtol_signed, strtol_hex,
}

-- A digit of `Print::print(n, HEX)`: 0-9 or A-F.
abbrev pub IsHexDigit : ℕ → Type 0
IsHexDigit c = (within b'0' b'9' c || within b'A' b'F' c) ≡ true

abbrev pub digit_value : ℕ → ℕ
digit_value c = if leb c b'9' then c - b'0' else c - b'A' + 10

-- The number that upper-case digits stand for, the most significant first.
abbrev pub hex_number : ℕ → Text → ℕ
hex_number acc [] = acc
hex_number acc (c ∷ cs) = hex_number (acc * 16 + digit_value c) cs

-- The Arduino core behind a stream: `Print::print(n, HEX)` as its documentation states it, and
-- what `write` of the wrapped stream returns for a byte.
pub record Printer : Type 0 where
  pub hex : ℕ → Text
  pub hex_is_digits : (n : ℕ) → All IsHexDigit (hex n)
  pub hex_number_is : (n : ℕ) → hex_number 0 (hex n) ≡ n
  pub written : ℕ → ℕ

hex_value-digit : (c : ℕ) → IsHexDigit c → hex_value c ≡ some (digit_value c)
unfolding hex_value
hex_value-digit c h = ground arith

hex_digits-number :
    (acc : ℕ) (cs : Text) → All IsHexDigit cs → hex_digits acc cs ≡ hex_number acc cs
unfolding hex_digits
hex_digits-number acc [] h = refl
hex_digits-number acc (c ∷ cs) h =
    ground (arith, hex_value-digit c h.0, hex_digits-number (acc * 16 + digit_value c) cs h.1)

digit_is_plain :
    (c : ℕ) → IsHexDigit c → (is_space c ≡ false) × ((c == b'-') ≡ false) × ((c == b'+') ≡ false)
digit_is_plain c h = ground arith

digit_is_no_x : (c : ℕ) → IsHexDigit c → (c == b'x' || c == b'X') ≡ false
digit_is_no_x c h = ground arith

skip_spaces-digit : (c : ℕ) (cs : Text) → IsHexDigit c → skip_spaces (c ∷ cs) ≡ c ∷ cs
unfolding skip_spaces
skip_spaces-digit c cs h = rw (digit_is_plain c h).0

skip_prefix-digits : (cs : Text) → All IsHexDigit cs → skip_prefix cs ≡ cs
unfolding skip_prefix
skip_prefix-digits [] h = refl
skip_prefix-digits (c ∷ []) h = refl
skip_prefix-digits (c ∷ d ∷ cs) h = elim (Bool-cases (c == b'0')) [
  | inl zero_digit ↦ rw (zero_digit, digit_is_no_x d h.1.0)
  | inr other ↦ rw other
]

-- `strtol` reads back what `print` wrote, where it fits a `long`.
pub strtol_hex-digits :
    (cs : Text) → All IsHexDigit cs → hex_number 0 cs < 2 ^ 31 → strtol_hex cs ≡ hex_number 0 cs
unfolding strtol_hex strtol_signed
strtol_hex-digits [] h lt = refl
strtol_hex-digits (c ∷ cs) h lt = rw (skip_spaces-digit c cs h.0) (
    rw ((digit_is_plain c h.0).1, (digit_is_plain c h.0).2, skip_prefix-digits (c ∷ cs) h)
      (rw (hex_digits-number 0 (c ∷ cs) h) (omega arith)))
