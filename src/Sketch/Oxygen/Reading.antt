-- ===== src/Sketch/Oxygen/Reading.antt =====
-- A line from the oxygen sensor, byte by byte.
use native.Mathlib.Numerals.{add-one}
use sensaurus.Prelude.{
  ℕ, zero, suc, ◌+◌, ◌<◌, ◌≤◌, ◌≡◌, ◌≢◌, refl, ap, ◌∙◌, arith, true, false, List, [], ◌∷◌, ◌++◌,
  append-nil, append_assoc, some, set, take, drop, take-set-suc, drop-append, length, length-append,
  length-set, ltb, ◌==◌, Bool-cases, inl, inr, Text, All,
}
use sensaurus.CText.{c_str}
use sensaurus.CheckStream.Buffer.{IsLineByte, c_str-set}
use sensaurus.Sketch.Oxygen.{Oxygen, index_of, parse_ox_buf, check_ox}

-- The part `line` of a line has come in.
record Gathers {Float : Type 0} (line : Text) (s : Oxygen Float) : Type 0 where
  index_is : s.ox_buf_index ≡ length line
  holds : take s.ox_buf_index s.ox_buf ≡ line
  size : length s.ox_buf ≡ 80

index_of-first :
    (before after : Text) (c : ℕ)
    → All (λ b. b ≢ c) before
    → index_of (before ++ c ∷ after) c ≡ some (length before)
unfolding index_of
index_of-first [] after c h = ground arith
index_of-first (b ∷ before) after c h = ground (arith, index_of-first before after c h.1, h.0)

c_str-drop :
    (n : ℕ) (buf : List ℕ) → n ≤ length (c_str buf) → c_str (drop n buf) ≡ drop n (c_str buf)
unfolding c_str
c_str-drop zero buf h = refl
c_str-drop (suc n) [] h = refl
c_str-drop (suc n) (b ∷ buf) h = elim (Bool-cases (b == 0)) [
  | inl nul ↦ absurd (ground arith)
  | inr char ↦
      let inside : n ≤ length (c_str buf) = ground arith in rw char (c_str-drop n buf inside)
]

drop-part :
    (before value : Text) (mark space : ℕ)
    → drop (length before + 2) (before ++ mark ∷ space ∷ value) ≡ value
drop-part before value mark space =
    let n : length before + 2 ≡ length (before ++ mark ∷ space ∷ []) =
      omega (arith, length-append before (mark ∷ space ∷ [])) in
    rw (n, ← append_assoc before (mark ∷ space ∷ []) value)
      (drop-append (before ++ mark ∷ space ∷ []) value)

module _ {Float : Type 0} (atof : Text → Float) where
  check_ox-step :
      (s : Oxygen Float) (c : ℕ) (cs : List ℕ)
      → c ≢ 10
      → s.ox_buf_index + 1 < 80
      → check_ox atof s (c ∷ cs)
        ≡ check_ox atof
            (record s { ox_buf = set s.ox_buf s.ox_buf_index c; ox_buf_index = s.ox_buf_index + 1 })
            cs
  unfolding check_ox
  check_ox-step s c cs no_lf room =
      let other : (c == 10) ≡ false = ground arith in
      let inside : ltb (s.ox_buf_index + 1) 80 ≡ true = ground arith in rw (check_ox, other, inside)

  parse_ox_buf-number :
      (s : Oxygen Float) (n : ℕ)
      → index_of (c_str (set s.ox_buf s.ox_buf_index 0)) b'%' ≡ some n
      → 0 < n
      → n + 2 < s.ox_buf_index
      → (parse_ox_buf atof s).ox ≡ atof (c_str (drop (n + 2) (set s.ox_buf s.ox_buf_index 0)))
  unfolding parse_ox_buf
  parse_ox_buf-number s n found pos room =
      let front : ltb 0 n ≡ true = ground arith in
      let inside : ltb (n + 2) s.ox_buf_index ≡ true = ground arith in
      rw (parse_ox_buf, found, front, inside)

  check_ox-Gathers :
      (line m rest : Text) (s : Oxygen Float)
      → All IsLineByte m
      → length line + length m < 80
      → Gathers line s
      → (t : Oxygen Float) × (check_ox atof s (m ++ rest) ≡ check_ox atof t rest)
        × Gathers (line ++ m) t
        × (t.ox ≡ s.ox)
  unfolding check_ox
  check_ox-Gathers line [] rest s h short w = (s, refl, rw (append-nil line) w, refl)
  check_ox-Gathers line (c ∷ m) rest s h short w =
      let next : Oxygen Float = record s {
        ox_buf = set s.ox_buf s.ox_buf_index c;
        ox_buf_index = s.ox_buf_index + 1;
      } in
      let w' : Gathers (line ++ c ∷ []) next = record {
        index_is = omega (arith, w.index_is, length-append line (c ∷ []));
        holds =
            rw add-one (take-set-suc s.ox_buf_index s.ox_buf c (omega (arith, w.index_is, w.size)))
            ∙ ap (λ t. t ++ c ∷ []) w.holds;
        size = length-set s.ox_buf s.ox_buf_index c ∙ w.size;
      } in
      let (t, steps, w'', same) =
        check_ox-Gathers (line ++ c ∷ []) m rest next h.1
          (omega (arith, length-append line (c ∷ []))) w' in
      (
        t,
        check_ox-step s c (m ++ rest) h.0.not_lf (omega (arith, w.index_is)) ∙ steps,
        rw (append_assoc line (c ∷ []) m) at w'',
        same,
      )

  -- A line of the sensor that holds a percent sign, not as its first character, is read as the
  -- number that stands two characters behind the first percent sign, and the buffer is empty again.
  pub check_ox_line :
      (s : Oxygen Float) (before value : Text) (space : ℕ)
      → s.ox_buf_index ≡ 0
      → length s.ox_buf ≡ 80
      → All IsLineByte (before ++ b'%' ∷ space ∷ value)
      → All (λ b. b ≢ b'%') before
      → 0 < length before
      → 0 < length value
      → length (before ++ b'%' ∷ space ∷ value) < 80
      → let t = check_ox atof s ((before ++ b'%' ∷ space ∷ value) ++ 10 ∷ []) in
        (t.ox ≡ atof value) × (t.ox_buf_index ≡ 0) × (length t.ox_buf ≡ 80)
  unfolding check_ox parse_ox_buf
  check_ox_line s before value space start size bytes first some_text some_value short =
      let line = before ++ b'%' ∷ space ∷ value in
      let (t, steps, w, same) =
        check_ox-Gathers [] line (10 ∷ []) s bytes (omega arith)
          (record { index_is = start; holds = rw start; size = size }) in
      let buf = set t.ox_buf t.ox_buf_index 0 in
      let text : c_str buf ≡ line =
        c_str-set t.ox_buf_index t.ox_buf (omega (arith, w.index_is, w.size)) (rw w.holds bytes)
        ∙ w.holds in
      let found : index_of (c_str buf) b'%' ≡ some (length before) =
        rw text (index_of-first before (space ∷ value) b'%' first) in
      let number : c_str (drop (length before + 2) buf) ≡ value =
        let inside : length before + 2 ≤ length line =
          omega (arith, length-append before (b'%' ∷ space ∷ value)) in
        c_str-drop (length before + 2) buf (rw text inside)
        ∙ ap (drop (length before + 2)) text
        ∙ drop-part before value b'%' space in
      rw steps (
        parse_ox_buf-number t (length before) found some_text
              (omega (arith, w.index_is, length-append before (b'%' ∷ space ∷ value)))
            ∙ ap atof number,
        refl,
        length-set t.ox_buf t.ox_buf_index 0 ∙ w.size,
      )
