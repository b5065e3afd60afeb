-- ===== src/SensaurDevice/Info/Positions.antt =====
-- Where `setInfo` finds the parts of an info text.
use native.Mathlib.Nat.{add-zero}
use sensaurus.Prelude.{
  ℕ, suc, ◌+◌, ◌-◌, ◌<◌, ◌≡◌, ◌≢◌, ap, ◌∙◌, arith, false, [], ◌∷◌, ◌++◌, All, Text, length, ◌==◌,
  if◌then◌else◌,
}
use sensaurus.Sensaur.Parse.{fields}
use sensaurus.SensaurDevice.{Starts, no_starts, at_comma, find_starts, part_len}

-- A part of an info text has no comma.
abbrev pub IsPart : Text → Type 0
IsPart f = All (λ c. c ≢ b',') f

pub find_starts-part :
    (s : Starts) (pos : ℕ) (f rest : Text)
    → IsPart f
    → find_starts s pos (f ++ rest) ≡ find_starts s (pos + length f) rest
unfolding find_starts
find_starts-part s pos [] rest h = rw add-zero
find_starts-part s pos (c ∷ f) rest h =
    let plain : (c == b',') ≡ false = ground (arith, h.0) in
    let next : pos + 1 + length f ≡ pos + suc (length f) = omega arith in
    ap (λ b. find_starts (if b then at_comma s pos else s) (pos + 1) (f ++ rest)) plain
    ∙ find_starts-part s (pos + 1) f rest h.1
    ∙ ap (λ n. find_starts s n rest) next

pub find_starts-comma :
    (s : Starts) (pos : ℕ) (f rest : Text)
    → IsPart f
    → find_starts s pos (b',' ∷ (f ++ rest))
      ≡ find_starts (at_comma s pos) (pos + 1 + length f) rest
unfolding find_starts
find_starts-comma s pos f rest h = find_starts-part (at_comma s pos) (pos + 1) f rest h

pub part_len_lem :
    (start next end : ℕ)
    → 0 < start
    → part_len start next end ≡ (if next == 0 then end - start else next - start - 1)
unfolding part_len
part_len_lem start next end h = ground arith

-- The starts after a text with one, two or three parts.
module _ (d : ℕ) (plain : d ≢ b',') where
  pub one_start :
      (t : Text)
      → IsPart t
      → find_starts no_starts 0 (d ∷ fields b',' (t ∷ []))
        ≡ record { part = 1; type_start = 2; model_start = 0; units_start = 0 }
  unfolding find_starts
  one_start t h =
      find_starts-part no_starts 0 (d ∷ []) (fields b',' (t ∷ [])) (plain, tt)
      ∙ find_starts-comma no_starts 1 t [] h

  pub two_starts :
      (t m : Text)
      → IsPart t
      → IsPart m
      → find_starts no_starts 0 (d ∷ fields b',' (t ∷ m ∷ []))
        ≡ record { part = 2; type_start = 2; model_start = 1 + 1 + length t + 1; units_start = 0 }
  unfolding find_starts
  two_starts t m h k =
      find_starts-part no_starts 0 (d ∷ []) (fields b',' (t ∷ m ∷ [])) (plain, tt)
      ∙ find_starts-comma no_starts 1 t (fields b',' (m ∷ [])) h
      ∙ find_starts-comma (at_comma no_starts 1) (1 + 1 + length t) m [] k

  pub three_starts :
      (t m u : Text)
      → IsPart t
      → IsPart m
      → IsPart u
      → find_starts no_starts 0 (d ∷ fields b',' (t ∷ m ∷ u ∷ [])) ≡ record {
        part = 3;
        type_start = 2;
        model_start = 1 + 1 + length t + 1;
        units_start = 1 + 1 + length t + 1 + length m + 1;
      }
  unfolding find_starts
  three_starts t m u h k l =
      find_starts-part no_starts 0 (d ∷ []) (fields b',' (t ∷ m ∷ u ∷ [])) (plain, tt)
      ∙ find_starts-comma no_starts 1 t (fields b',' (m ∷ u ∷ [])) h
      ∙ find_starts-comma (at_comma no_starts 1) (1 + 1 + length t) m (fields b',' (u ∷ [])) k
      ∙ find_starts-comma (at_comma (at_comma no_starts 1) (1 + 1 + length t))
          (1 + 1 + length t + 1 + length m) u [] l
