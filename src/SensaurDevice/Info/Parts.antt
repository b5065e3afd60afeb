-- ===== src/SensaurDevice/Info/Parts.antt =====
-- What `setInfo` copies into the arrays of a component.
use sensaurus.Prelude.{
  ℕ, zero, suc, ◌≡◌, ap, ◌∙◌, arith, List, [], ◌∷◌, ◌++◌, Text, length, take, drop, set, min,
  length-append, length-set, take-take, take-append_le, drop-append,
}
use sensaurus.CText.{c_str, strncpy}
use sensaurus.CText.Copy.{
  IsText, IsTerminated, IsText-take, c_str-set, length-c_str-set_le, c_str-IsText, length-strncpy,
  take-strncpy, c_str-set-strncpy,
}
use sensaurus.SensaurDevice.{clip_len, copy_part}

take-min {ℓ} : {A : Type ℓ} (n : ℕ) (xs : List A) → take (min (length xs) n) xs ≡ take n xs
take-min zero xs = let none_left : min (length xs) 0 ≡ 0 = omega arith in rw none_left
take-min (suc n) [] = let none_left : min 0 (suc n) ≡ 0 = omega arith in rw none_left
take-min (suc n) (x ∷ xs) =
    let step : min (suc (length xs)) (suc n) ≡ suc (min (length xs) n) = omega arith in
    rw step (ap (◌∷◌ x) (take-min n xs))

clip_len-min : (n len : ℕ) → clip_len (suc n) len ≡ min len n
unfolding clip_len
clip_len-min n len = ground arith

module _ (dst : List ℕ) (n : ℕ) (sized : length dst ≡ suc n) where
  -- The part that stands at `start` is copied, as far as the array holds it.
  c_str-copy_part :
      (pre part rest : Text)
      → IsText part
      → c_str (copy_part dst (pre ++ (part ++ rest)) (length pre) (clip_len (suc n) (length part)))
        ≡ take n part
  unfolding copy_part
  c_str-copy_part pre part rest h =
      let len = min (length part) n in
      let there : drop (length pre) (pre ++ (part ++ rest)) ≡ part ++ rest =
        drop-append pre (part ++ rest) in
      let copied : take len (strncpy dst (part ++ rest) len) ≡ take len part =
        take-strncpy dst (part ++ rest) len (omega arith) (omega (arith, length-append part rest))
        ∙ take-append_le len part rest (omega arith) in
      rw (clip_len-min n (length part), there)
        (c_str-set len (strncpy dst (part ++ rest) len)
            (omega (arith, length-strncpy dst (part ++ rest) len (omega arith)))
            (rw copied (IsText-take len part h))
          ∙ copied
          ∙ take-min n part)

  -- Of an absent part nothing is copied.
  pub c_str-copy_none : (info : Text) → c_str (copy_part dst info 0 (clip_len (suc n) 0)) ≡ []
  unfolding copy_part
  c_str-copy_none info =
      let none_left : min 0 n ≡ 0 = omega arith in
      rw (clip_len-min n 0, none_left)
        (c_str-set 0 (strncpy dst info 0) (omega (arith, length-strncpy dst info 0 (omega arith)))
          tt)

  -- Whatever is copied, the array keeps its size and ends up with a NUL in it.
  pub copy_part-IsTerminated :
      (info : Text) (start len : ℕ)
      → (length (copy_part dst info start (clip_len (suc n) len)) ≡ length dst)
        × IsTerminated (copy_part dst info start (clip_len (suc n) len))
  unfolding copy_part
  copy_part-IsTerminated info start len =
      let m = min len n in
      let size = length-strncpy dst (drop start info) m (omega arith) in
      let size' = length-set (strncpy dst (drop start info) m) m 0 in
      rw clip_len-min (
        size' ∙ size,
        omega (
          arith,
          size,
          size',
          length-c_str-set_le m (strncpy dst (drop start info) m) (omega (arith, size)),
        ),
      )

pub id_suffix_lem :
    (suffix type : List ℕ) (t : Text)
    → length suffix ≡ 6
    → c_str type ≡ take 19 t
    → c_str (set (strncpy suffix (c_str type) 5) 5 0) ≡ take 5 t
id_suffix_lem suffix type t sized e =
    c_str-set-strncpy suffix (c_str type) 5 (omega arith) (omega arith) (c_str-IsText type)
    ∙ rw e (take-take 5 19 t (omega arith))

pub c_str-part :
    (dst : List ℕ) (info pre part rest : Text) (start len : ℕ)
    → length dst ≡ 20
    → IsText part
    → info ≡ pre ++ (part ++ rest)
    → start ≡ length pre
    → len ≡ length part
    → c_str (copy_part dst info start (clip_len 20 len)) ≡ take 19 part
c_str-part dst info pre part rest start len sized h e e' e'' =
    rw (e, e', e'') (c_str-copy_part dst 19 sized pre part rest h)

pub id_suffix-IsTerminated :
    (suffix s : List ℕ)
    → length suffix ≡ 6
    → (length (set (strncpy suffix s 5) 5 0) ≡ 6) × IsTerminated (set (strncpy suffix s 5) 5 0)
id_suffix-IsTerminated suffix s sized =
    let size = length-strncpy suffix s 5 (omega arith) in
    let size' = length-set (strncpy suffix s 5) 5 0 in
    (
      size' ∙ size ∙ sized,
      omega (arith, size, size', length-c_str-set_le 5 (strncpy suffix s 5) (omega (arith, size))),
    )
