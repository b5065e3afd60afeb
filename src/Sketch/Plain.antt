-- ===== src/Sketch/Plain.antt =====
-- Answers whose parts hold no line end.
use sensaurus.Prelude.{ℕ, arith, [], ◌∷◌, ◌++◌, append-nil, Text, All}
use sensaurus.CText.Number.{IsHexDigit}
use sensaurus.CheckStream.Buffer.{IsLineByte}

hex_digit-IsLineByte : (c : ℕ) → IsHexDigit c → IsLineByte c
hex_digit-IsLineByte c h = record {
  not_nul = λ e. ground arith;
  not_cr = λ e. ground arith;
  not_lf = λ e. ground arith;
}

pub hex_digits-IsLineByte : (cs : Text) → All IsHexDigit cs → All IsLineByte cs
hex_digits-IsLineByte [] h = tt
hex_digits-IsLineByte (c ∷ cs) h = (hex_digit-IsLineByte c h.0, hex_digits-IsLineByte cs h.1)

pub All-join : (xs ys : Text) → All IsLineByte xs → All IsLineByte ys → All IsLineByte (xs ++ ys)
All-join [] ys front back = back
All-join (x ∷ xs) ys front back = (front.0, All-join xs ys front.1 back)

-- A label and a value behind it.
pub labelled-IsLineByte :
    (label value : Text)
    → All IsLineByte label
    → All IsLineByte value
    → All IsLineByte (label ++ (value ++ []))
labelled-IsLineByte label value h k = All-join label (value ++ []) h (rw (append-nil value) k)
