-- ===== src/Config/Chunks.antt =====
-- The certificate and the key of the hub, which a BLE client writes in pieces.
use sensaurus.Prelude.{
  join, ℕ, ◌+◌, ◌-◌, ◌<◌, ◌≤◌, ◌≡◌, refl, sym, ap, ◌∙◌, arith, true, false, List, [], ◌∷◌, ◌++◌,
  append_assoc, append-nil, set, take, drop, length, length-append, length-drop, All, ltb,
  Bool-cases, inl, inr, Text, codes,
}
use sensaurus.CText.{c_str, strcat, text_eq}
use sensaurus.CText.Copy.{IsText, IsTerminated, c_str-append, c_str-text, c_str-IsText}
use sensaurus.Config.{add_chunk}

take-c_str : (buf : List ℕ) → take (length (c_str buf)) buf ≡ c_str buf
unfolding c_str
take-c_str [] = refl
take-c_str (c ∷ cs) = ground (arith, take-c_str cs)

length-c_str : (buf : List ℕ) → length (c_str buf) ≤ length buf
unfolding c_str
length-c_str [] = omega arith
length-c_str (c ∷ cs) = ground (arith, length-c_str cs)

module _ (dst : List ℕ) (src : Text) (fits : length (c_str dst) + length src < length dst) where
  c_str-strcat : IsText src → c_str (strcat dst src) ≡ c_str dst ++ src
  unfolding strcat
  c_str-strcat plain =
      let rest = drop (length (c_str dst) + length src + 1) dst in
      rw (take-c_str dst) (
        c_str-append (c_str dst ++ src) rest
          (IsText-append (c_str dst) src (c_str-IsText dst) plain))
    where
      IsText-append : (s t : Text) → IsText s → IsText t → IsText (s ++ t)
      IsText-append [] t h k = k
      IsText-append (c ∷ s) t h k = (h.0, IsText-append s t h.1 k)

  length-strcat : length (strcat dst src) ≡ length dst
  unfolding strcat
  length-strcat =
      let end = length (c_str dst) in
      let rest = drop (end + length src + 1) dst in
      rw (take-c_str dst) (
        omega (
          arith,
          length-append (c_str dst ++ src) (0 ∷ rest),
          length-append (c_str dst) src,
          length-drop (end + length src + 1) dst,
        ))

-- An array of `size` characters that holds a string.
pub record IsHeld (size : ℕ) (buf : List ℕ) : Type 0 where
  pub sized : length buf ≡ size
  pub ends : IsTerminated buf

emptied-IsHeld : (size : ℕ) (held : List ℕ) → IsHeld size held → IsHeld size (set held 0 0)
unfolding c_str
emptied-IsHeld size [] h = h
emptied-IsHeld size (c ∷ cs) h = record { sized = h.sized; ends = omega arith }

c_str-set_first : (held : List ℕ) → c_str (set held 0 0) ≡ []
unfolding c_str
c_str-set_first [] = refl
c_str-set_first (c ∷ cs) = refl

pub add_chunk-IsHeld :
    (size : ℕ) (held value : List ℕ) → IsHeld size held → IsHeld size (add_chunk size held value)
unfolding add_chunk
add_chunk-IsHeld size held value h = elim (Bool-cases (text_eq value (codes "clear"))) [
  | inl clear ↦ rw clear (emptied-IsHeld size held h)
  | inr piece ↦ elim (Bool-cases (ltb (length (c_str held) + length (c_str value)) (size - 1))) [
    | inr long ↦ rw (piece, long) h
    | inl short ↦
        let fits : length (c_str held) + length (c_str value) < length held =
          ground (arith, h.sized) in
        rw (piece, short)
          (record {
            sized = length-strcat held (c_str value) fits ∙ h.sized;
            ends = omega (
              arith,
              length-strcat held (c_str value) fits,
              ap length (c_str-strcat held (c_str value) fits (c_str-IsText value)),
              length-append (c_str held) (c_str value),
            );
          })
  ]
]

-- The pieces written to the array, one after another.
abbrev pub add_chunks : ℕ → List ℕ → List (List ℕ) → List ℕ
add_chunks size held [] = held
add_chunks size held (piece ∷ pieces) = add_chunks size (add_chunk size held piece) pieces

-- A text that is not the word "clear".
abbrev pub IsPiece : Text → Type 0
IsPiece piece = IsText piece × (text_eq piece (codes "clear") ≡ false)

c_str-add_chunk :
    (size : ℕ) (held piece : List ℕ)
    → IsHeld size held
    → IsPiece piece
    → length (c_str held) + length piece < size - 1
    → c_str (add_chunk size held piece) ≡ c_str held ++ piece
unfolding add_chunk
c_str-add_chunk size held piece h (plain, other) room =
    let same = c_str-text piece plain in
    let short : ltb (length (c_str held) + length piece) (size - 1) ≡ true = ground arith in
    rw (other, same, short) (c_str-strcat held piece (omega (arith, h.sized)) plain)

c_str-add_chunks :
    (size : ℕ) (held : List ℕ) (pieces : List (List ℕ))
    → IsHeld size held
    → All IsPiece pieces
    → length (c_str held) + length (join pieces) < size - 1
    → c_str (add_chunks size held pieces) ≡ c_str held ++ join pieces
c_str-add_chunks size held [] h all room = sym (append-nil (c_str held))
c_str-add_chunks size held (piece ∷ pieces) h all room =
    let length_is = length-append piece (join pieces) in
    let step = c_str-add_chunk size held piece h all.0 (omega arith) in
    c_str-add_chunks size (add_chunk size held piece) pieces (add_chunk-IsHeld size held piece h)
      all.1 (omega (arith, ap length step, length-append (c_str held) piece))
    ∙ ap (λ t. t ++ join pieces) step
    ∙ append_assoc (c_str held) piece (join pieces)

module _ (size : ℕ) (held : List ℕ) (pieces : List (List ℕ)) (h : IsHeld size held)
    (all : All IsPiece pieces) (room : length (join pieces) < size - 1) where
  pub uploaded : c_str (add_chunks size held (codes "clear" ∷ pieces)) ≡ join pieces
  unfolding add_chunk text_eq
  uploaded =
      let none_left : c_str (set held 0 0) ≡ [] = c_str-set_first held in
      c_str-add_chunks size (set held 0 0) pieces (emptied-IsHeld size held h) all
        (omega (arith, ap length none_left))
      ∙ ap (λ t. t ++ join pieces) none_left
