-- ===== src/CText.antt =====
-- What the sources use of the C library on strings: strtol, strncpy, strcmp and the string that
-- a buffer holds at an offset. A string is the list of its characters before the NUL.
pub mod Number
pub mod Copy
pub mod Hex
pub mod Same
use sensaurus.Prelude.{
  ℕ, zero, suc, ◌+◌, ◌-◌, ◌*◌, ◌%◌, ◌^◌, min, Bool, true, false, ◌&&◌, ◌||◌, List, [], ◌∷◌, ◌++◌,
  Option, none, some, ltb, leb, ◌==◌, if◌then◌else◌, Text, take, drop, replicate, length,
}

abbrev pub within : ℕ → ℕ → ℕ → Bool
within lo hi c = leb lo c && leb c hi

-- `isspace` in the C locale.
abbrev pub is_space : ℕ → Bool
is_space c = c == b' ' || within 9 13 c

-- The value of a hexadecimal digit of either case.
unfoldable pub hex_value : ℕ → Option ℕ
hex_value c =
    if within b'0' b'9' c
    then some (c - b'0')
    else if within b'A' b'F' c
    then some (c - b'A' + 10)
    else if within b'a' b'f' c
    then some (c - b'a' + 10)
    else none

-- The digits at the front of a text, onto the value read so far.
unfoldable pub hex_digits : ℕ → Text → ℕ
unfolding hex_value
hex_digits acc [] = acc
hex_digits acc (c ∷ cs) = elim (hex_value c) [ none ↦ acc | some d ↦ hex_digits (acc * 16 + d) cs ]

-- A prefix `0x` with no digit behind it leaves the value 0, as the lone digit 0 does.
unfoldable pub skip_prefix : Text → Text
skip_prefix (z ∷ x ∷ cs) = if z == b'0' && (x == b'x' || x == b'X') then cs else z ∷ x ∷ cs
skip_prefix cs = cs

unfoldable pub skip_spaces : Text → Text
skip_spaces [] = []
skip_spaces (c ∷ cs) = let rest = skip_spaces cs in if is_space c then rest else c ∷ cs

-- `strtol(s, 0, 16)`: the bit pattern of a 32-bit `long`, which holds the largest or the least
-- value where the number read does not fit.
unfoldable pub strtol_signed : Text → ℕ
strtol_signed [] = 0
strtol_signed (c ∷ cs) =
    if c == b'-'
    then (2 ^ 32 - min (hex_digits 0 (skip_prefix cs)) (2 ^ 31)) % 2 ^ 32
    else if c == b'+'
    then min (hex_digits 0 (skip_prefix cs)) (2 ^ 31 - 1)
    else min (hex_digits 0 (skip_prefix (c ∷ cs))) (2 ^ 31 - 1)

unfoldable pub strtol_hex : Text → ℕ
unfolding skip_prefix skip_spaces strtol_signed hex_digits
strtol_hex s = strtol_signed (skip_spaces s)

-- The string that starts at the front of a buffer.
unfoldable pub c_str : List ℕ → Text
c_str [] = []
c_str (c ∷ cs) = let rest = c_str cs in if c == 0 then [] else c ∷ rest

-- `strncpy(dst, src, n)` for `n` within `dst`: at most `n` characters, then NULs up to `n`.
unfoldable pub strncpy : List ℕ → Text → ℕ → List ℕ
strncpy dst src n = take n (src ++ replicate (n - length src) 0) ++ drop n dst

-- `strcat(dst, src)` for a `dst` with room: `src` and a NUL, from the end of the string in `dst` on.
unfoldable pub strcat : List ℕ → Text → List ℕ
unfolding c_str
strcat dst src =
    let end = length (c_str dst) in take end dst ++ src ++ 0 ∷ drop (end + length src + 1) dst

-- `strcpy(dst, src)`; `none` where `src` and its NUL are longer than `dst`.
unfoldable pub strcpy : List ℕ → Text → Option (List ℕ)
strcpy dst src =
    if ltb (length src) (length dst) then some (src ++ 0 ∷ drop (length src + 1) dst) else none

-- `strcmp(a, b) == 0`.
unfoldable pub text_eq : Text → Text → Bool
text_eq [] [] = true
text_eq (a ∷ s) (b ∷ t) = a == b && text_eq s t
text_eq _ _ = false
