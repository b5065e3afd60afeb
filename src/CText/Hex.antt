-- ===== src/CText/Hex.antt =====
-- A printer that meets what `Printer` states, for the tests.
use sensaurus.Prelude.{
  ℕ, zero, suc, ◌+◌, ◌-◌, ◌*◌, ◌/◌, ◌%◌, ◌<◌, ◌≤◌, ◌≡◌, refl, ◌∙◌, arith, [], ◌∷◌, ◌++◌, ltb,
  if◌then◌else◌, Text, All, All-snoc, Bool-cases, inl, inr,
}
use sensaurus.CText.Number.{IsHexDigit, digit_value, hex_number, Printer}

abbrev hex_digit : ℕ → ℕ
hex_digit d = if ltb d 10 then d + b'0' else d - 10 + b'A'

-- The digits of a number of at most `fuel`, the most significant first.
hex_fuel : ℕ → ℕ → Text
hex_fuel zero n = b'0' ∷ []
hex_fuel (suc fuel) n =
    let front = hex_fuel fuel (n / 16) in
    if ltb n 16 then hex_digit n ∷ [] else front ++ hex_digit (n % 16) ∷ []

unfoldable pub hex_text : ℕ → Text
unfolding hex_fuel
hex_text n = hex_fuel n n

hex_digit_lem : (d : ℕ) → d < 16 → IsHexDigit (hex_digit d) × (digit_value (hex_digit d) ≡ d)
hex_digit_lem d h = ground arith

hex_number-append :
    (acc : ℕ) (cs : Text) (c : ℕ)
    → hex_number acc (cs ++ c ∷ []) ≡ hex_number acc cs * 16 + digit_value c
hex_number-append acc [] c = refl
hex_number-append acc (d ∷ cs) c = hex_number-append (acc * 16 + digit_value d) cs c

hex_fuel_digits : (fuel n : ℕ) → All IsHexDigit (hex_fuel fuel n)
unfolding hex_fuel
hex_fuel_digits zero n = (refl, tt)
hex_fuel_digits (suc fuel) n = elim (Bool-cases (ltb n 16)) [
  | inl small ↦ rw small ((hex_digit_lem n (ground arith)).0, tt)
  | inr large ↦ rw large (
      All-snoc IsHexDigit (hex_fuel fuel (n / 16)) (hex_digit (n % 16))
        (hex_fuel_digits fuel (n / 16), (hex_digit_lem (n % 16) (omega arith)).0))
]

hex_fuel_number : (fuel n : ℕ) → n ≤ fuel → hex_number 0 (hex_fuel fuel n) ≡ n
unfolding hex_fuel
hex_fuel_number zero n h = omega arith
hex_fuel_number (suc fuel) n h = elim (Bool-cases (ltb n 16)) [
  | inl small ↦ rw small (omega (arith, (hex_digit_lem n (ground arith)).1))
  | inr large ↦ rw large (
      let room : n / 16 ≤ fuel = ground arith in
      hex_number-append 0 (hex_fuel fuel (n / 16)) (hex_digit (n % 16))
      ∙ omega (arith, hex_fuel_number fuel (n / 16) room, (hex_digit_lem (n % 16) (omega arith)).1))
]

pub hex_text_digits : (n : ℕ) → All IsHexDigit (hex_text n)
unfolding hex_text
hex_text_digits n = hex_fuel_digits n n

pub hex_text_number : (n : ℕ) → hex_number 0 (hex_text n) ≡ n
unfolding hex_text
hex_text_number n = hex_fuel_number n n (omega arith)

abbrev pub arduino_printer : Printer
arduino_printer = record {
  hex = hex_text;
  hex_is_digits = hex_text_digits;
  hex_number_is = hex_text_number;
  written = λ _. 1;
}
