-- ===== src/CText/Copy.antt =====
-- What `strncpy` and a written NUL leave in a buffer.
use sensaurus.Prelude.{
  ℕ, zero, suc, ◌-◌, ◌≤◌, ◌<◌, ◌≡◌, ◌≢◌, refl, sym, ap, ◌∙◌, arith, List, [], ◌∷◌, ◌++◌, All, Text,
  length, take, drop, set, replicate, length-append, length-take, length-drop, length-replicate,
  take-all, take-take, append-nil, take-append_le, append_assoc, dec_lt,
}
use sensaurus.CText.{c_str, strncpy}

-- The characters of a string: none of them is NUL.
abbrev pub IsText : Text → Type 0
IsText s = All (λ c. c ≢ 0) s

-- A buffer that holds a string: some character of it is NUL.
abbrev pub IsTerminated : List ℕ → Type 0
IsTerminated buf = length (c_str buf) < length buf

pub IsText-take : (n : ℕ) (s : Text) → IsText s → IsText (take n s)
IsText-take zero s h = tt
IsText-take (suc n) [] h = tt
IsText-take (suc n) (c ∷ s) h = (h.0, IsText-take n s h.1)

pub IsText-drop : (n : ℕ) (s : Text) → IsText s → IsText (drop n s)
IsText-drop zero s h = h
IsText-drop (suc n) [] h = tt
IsText-drop (suc n) (c ∷ s) h = IsText-drop n s h.1

-- The string that a buffer holds once a NUL is written behind its text.
pub c_str-set :
    (i : ℕ) (buf : List ℕ) → i < length buf → IsText (take i buf) → c_str (set buf i 0) ≡ take i buf
unfolding c_str
c_str-set i [] lt h = elim lt [ ]
c_str-set zero (x ∷ buf) lt h = refl
c_str-set (suc i) (x ∷ buf) lt h = ground (arith, c_str-set i buf (omega arith) h.1, h.0)

pub length-c_str-set_le : (i : ℕ) (buf : List ℕ) → i < length buf → length (c_str (set buf i 0)) ≤ i
unfolding c_str
length-c_str-set_le i [] lt = elim lt [ ]
length-c_str-set_le zero (x ∷ buf) lt = omega arith
length-c_str-set_le (suc i) (x ∷ buf) lt = ground (arith, length-c_str-set_le i buf (omega arith))

pub c_str-append : (s rest : Text) → IsText s → c_str (s ++ 0 ∷ rest) ≡ s
unfolding c_str
c_str-append [] rest h = refl
c_str-append (c ∷ s) rest h = ground (arith, c_str-append s rest h.1, h.0)

pub c_str-IsText : (buf : List ℕ) → IsText (c_str buf)
unfolding c_str
c_str-IsText [] = tt
c_str-IsText (c ∷ cs) = ground (arith, c_str-IsText cs)

pub c_str-text : (s : Text) → IsText s → c_str s ≡ s
unfolding c_str
c_str-text [] h = refl
c_str-text (c ∷ s) h = ground (arith, c_str-text s h.1, h.0)

-- A NUL written behind the end of a string changes nothing of it.
c_str-set_late : (i : ℕ) (buf : List ℕ) → length (c_str buf) < i → c_str (set buf i 0) ≡ c_str buf
unfolding c_str
c_str-set_late i [] h = refl
c_str-set_late zero (x ∷ buf) h = elim h [ ]
c_str-set_late (suc i) (x ∷ buf) h = ground (arith, c_str-set_late i buf)

module _ (dst : List ℕ) (src : Text) (n : ℕ) (fits : n ≤ length dst) where
  pub length-strncpy : length (strncpy dst src n) ≡ length dst
  unfolding strncpy
  length-strncpy = omega (
    arith,
    length-append (take n (src ++ replicate (n - length src) 0)) (drop n dst),
    length-take n (src ++ replicate (n - length src) 0),
    length-append src (replicate (n - length src) 0),
    length-replicate {A = ℕ} (n - length src) 0,
    length-drop n dst,
  )

  pub take-strncpy : n ≤ length src → take n (strncpy dst src n) ≡ take n src
  unfolding strncpy
  take-strncpy h =
      take-append_le n (take n (src ++ replicate (n - length src) 0)) (drop n dst) (
        omega (
          arith,
          length-take n (src ++ replicate (n - length src) 0),
          length-append src (replicate (n - length src) 0),
        ))
      ∙ take-take n n (src ++ replicate (n - length src) 0) (omega arith)
      ∙ take-append_le n src (replicate (n - length src) 0) h

  -- A text that leaves room for a NUL is held as it is.
  pub c_str-strncpy : IsText src → length src < n → c_str (strncpy dst src n) ≡ src
  unfolding strncpy
  c_str-strncpy h lt =
      let rest = n - length src - 1 in
      let room : n - length src ≡ suc rest = omega arith in
      let whole : take n (src ++ replicate (n - length src) 0) ≡ src ++ 0 ∷ replicate rest 0 =
        take-all n (src ++ replicate (n - length src) 0) (
          omega (
            arith,
            length-append src (replicate (n - length src) 0),
            length-replicate {A = ℕ} (n - length src) 0,
          ))
        ∙ ap (λ k. src ++ replicate k 0) room in
      rw (whole, append_assoc src (0 ∷ replicate rest 0) (drop n dst))
        (c_str-append src (replicate rest 0 ++ drop n dst) h)

  -- A text with no room left is cut off at `n`, and no NUL is written behind it.
  pub strncpy-long : n ≤ length src → strncpy dst src n ≡ take n src ++ drop n dst
  unfolding strncpy
  strncpy-long h = ap (λ t. t ++ drop n dst) (take-append_le n src (replicate (n - length src) 0) h)

  -- With a NUL written behind them, the characters copied are the string.
  pub c_str-set-strncpy :
      n < length dst → IsText src → c_str (set (strncpy dst src n) n 0) ≡ take n src
  c_str-set-strncpy lt h = elim (dec_lt (length src) n) [
    | yes short ↦
        c_str-set_late n (strncpy dst src n) (rw (c_str-strncpy h short) short)
        ∙ c_str-strncpy h short
        ∙ sym (take-all n src (omega arith))
    | no long ↦
        let copied = take-strncpy (omega arith) in
        c_str-set n (strncpy dst src n) (omega (arith, length-strncpy))
          (rw copied (IsText-take n src h))
        ∙ copied
  ]

length-zero {ℓ} : {A : Type ℓ} (xs : List A) → length xs ≡ 0 → xs ≡ []
length-zero [] h = refl
length-zero (x ∷ xs) h = absurd (omega arith)

-- A text that fills the whole array is cut off, and the array then holds no NUL at all.
module _ (dst : List ℕ) (src : Text) (h : IsText src) (long : length dst ≤ length src) where
  strncpy-whole : strncpy dst src (length dst) ≡ take (length dst) src
  strncpy-whole =
      strncpy-long dst src (length dst) (omega arith) long
      ∙ ap (◌++◌ (take (length dst) src))
          (length-zero (drop (length dst) dst) (omega (arith, length-drop (length dst) dst)))
      ∙ append-nil (take (length dst) src)

  pub strncpy-open : ¬ IsTerminated (strncpy dst src (length dst))
  strncpy-open =
      rw (strncpy-whole, c_str-text (take (length dst) src) (IsText-take (length dst) src h))
        (omega arith)
