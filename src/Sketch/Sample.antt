-- ===== src/Sketch/Sample.antt =====
-- A core that prints decimal numbers, and a device that is idle.
use sensaurus.Prelude.{
  ℕ, zero, suc, ◌+◌, ◌/◌, ◌%◌, ◌≢◌, refl, arith, [], ◌∷◌, ◌++◌, All, All-snoc, replicate, ltb,
  if◌then◌else◌, Text, Bool-cases, inl, inr,
}
use sensaurus.CText.Hex.{arduino_printer}
use sensaurus.CheckStream.{check_stream}
use sensaurus.CheckStream.Buffer.{IsLineByte, IsReady}
use sensaurus.Sketch.{Core, Line}
use sensaurus.Sketch.Incoming.{IsIdle}

pub line_byte : (c : ℕ) → c ≢ 0 → c ≢ 13 → c ≢ 10 → IsLineByte c
line_byte c a b d = record { not_nul = a; not_cr = b; not_lf = d }

unfoldable pub dec_fuel : ℕ → ℕ → Text
dec_fuel zero n = b'0' ∷ []
dec_fuel (suc fuel) n =
    let front = dec_fuel fuel (n / 10) in
    if ltb n 10 then (n % 10 + b'0') ∷ [] else front ++ (n % 10 + b'0') ∷ []

digit_plain : (n : ℕ) → IsLineByte (n % 10 + b'0')
digit_plain n = line_byte (n % 10 + b'0') (omega arith) (omega arith) (omega arith)

pub dec_fuel_plain : (fuel n : ℕ) → All IsLineByte (dec_fuel fuel n)
unfolding dec_fuel
dec_fuel_plain zero n = (line_byte b'0' (omega arith) (omega arith) (omega arith), tt)
dec_fuel_plain (suc fuel) n = elim (Bool-cases (ltb n 10)) [
  | inl small ↦ rw small (digit_plain n, tt)
  | inr large ↦ rw large (
      All-snoc IsLineByte (dec_fuel fuel (n / 10)) (n % 10 + b'0')
        (dec_fuel_plain fuel (n / 10), digit_plain n))
]

-- A `float` is a whole number here.
abbrev pub decimal_core : Core ℕ
decimal_core = record {
  printer = arduino_printer;
  dec = λ n. dec_fuel 5 n;
  fixed = λ n. dec_fuel 5 n;
  dec_is_plain = λ n. dec_fuel_plain 5 n;
  fixed_is_plain = λ n. dec_fuel_plain 5 n;
}

abbrev pub idle_line : Line
idle_line = record { message = replicate 80 0; message_index = 0 }

pub idle_line-IsIdle : IsIdle idle_line
idle_line-IsIdle = record { at_start = refl; size = refl }

pub check_stream-IsReady : IsReady check_stream
check_stream-IsReady = record { crc_reset = refl; at_start = refl; buffer_size = refl }
