-- ===== src/Sensaur/Shape.antt =====
-- `parseMessage` writes within its message, and no argument stands behind its array.
use sensaurus.Prelude.{
  ℕ, suc, ◌≡◌, refl, ap, ◌||◌, List, [], ◌∷◌, Option, none, some, ◌≤◌, ◌<◌, zero, arith, ltb,
  get_elem?, length, replicate, ◌==◌, Bool-cases, inl, inr, Text,
}
use sensaurus.CText.{strtol_hex}
use sensaurus.Sensaur.{Board, to_int, Parsed, parse_from, parse_message, arg}

length-parse_from :
    (board : Board) (n separator : ℕ) (m : Text) (pos crc count : ℕ) (args : List (Option ℕ))
    → length (parse_from board n separator pos crc count args m).buffer ≡ length m
unfolding parse_from
length-parse_from board n separator [] pos crc count args = refl
length-parse_from board n separator (c ∷ cs) pos crc count args =
    elim (Bool-cases (c == b':' || c == separator)) [
      | inl split ↦ rw split (ap suc (length-parse_from board n separator cs _ _ _ _))
      | inr other ↦ rw other (elim (Bool-cases (c == b'|')) [
        | inl mark ↦ rw mark (elim (Bool-cases (to_int board (strtol_hex cs) == to_int board crc)) [
          | inl same ↦ rw same (ap suc (length-parse_from board n separator cs _ _ _ _))
          | inr wrong ↦ rw wrong
        ])
        | inr char ↦ rw char (ap suc (length-parse_from board n separator cs _ _ _ _))
      ])
    ]

pub length-parse_message :
    (board : Board) (m : Text) (n separator : ℕ)
    → length (parse_message board m n separator).buffer ≡ length m
unfolding parse_message
length-parse_message board m n separator =
    length-parse_from board n separator m 0 0xffff 0 (replicate n none)

get_elem?_beyond : {A : Type 0} (xs : List A) (i : ℕ) → length xs ≤ i → get_elem? xs i ≡ none
get_elem?_beyond [] i h = refl
get_elem?_beyond (x ∷ xs) zero h = absurd (omega arith)
get_elem?_beyond (x ∷ xs) (suc i) h = get_elem?_beyond xs i (omega arith)

pub arg_beyond : (r : Parsed) (i : ℕ) → length r.args ≤ i → arg r i ≡ none
unfolding arg
arg_beyond r i h = rw (arg, get_elem?_beyond r.args i h)

pub arg-lt : (r : Parsed) (i : ℕ) (text : Text) → arg r i ≡ some text → i < length r.args
arg-lt r i text e = elim (Bool-cases (ltb i (length r.args))) [
  | inl inside ↦ ground arith
  | inr beyond ↦ let unset = arg_beyond r i (ground arith) in absurd (ground arith)
]
