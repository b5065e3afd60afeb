-- ===== src/Sensaur/Parse/Fill.antt =====
-- The arguments that the separators of a message set, and the strings that they point to.
use native.Mathlib.Nat.{add-zero}
use sensaurus.Prelude.{
  ℕ, zero, suc, ◌+◌, ◌<◌, ◌≡◌, ◌≢◌, refl, ap, ◌∙◌, arith, Bool, true, false, List, [], ◌∷◌, ◌++◌,
  Option, some, length, length-append, length-set, set, get_elem?, get_elem?-set_self,
  get_elem?-set_ne, drop, drop-append, ltb, lt→ltb, if◌then◌else◌, Text, All, append_assoc,
}
use sensaurus.CText.{c_str}
use sensaurus.Sensaur.{Parsed, at_offset, arg}

-- A character of a field: not NUL, and none of the characters that `parseMessage` acts on.
pub record IsFieldByte (separator c : ℕ) : Type 0 where
  pub not_nul : c ≢ 0
  pub not_colon : c ≢ b':'
  pub not_separator : c ≢ separator
  pub not_bar : c ≢ b'|'

abbrev pub IsField : ℕ → Text → Type 0
IsField separator f = All (IsFieldByte separator) f

-- The fields, each behind its separator.
abbrev pub fields : ℕ → List Text → Text
fields separator [] = []
fields separator (f ∷ fs) = separator ∷ (f ++ fields separator fs)

-- The same with the NULs that `parseMessage` writes over the separators.
abbrev pub nul_fields : List Text → List ℕ
nul_fields = fields 0

-- The entries of `args` once the fields behind position `pos` are read.
abbrev pub fill : ℕ → ℕ → ℕ → List (Option ℕ) → List Text → List (Option ℕ)
fill max_args pos count args [] = args
fill max_args pos count args (f ∷ fs) =
    fill max_args (pos + 1 + length f) (count + 1)
      (if ltb count max_args then set args count (some (pos + 1)) else args) fs

-- What may follow the fields: nothing, or a NUL written over the mark.
abbrev pub IsEnd : List ℕ → Type 0
IsEnd [] = Unit
IsEnd (c ∷ cs) = c ≡ 0

c_str-end : (tail : List ℕ) → IsEnd tail → c_str tail ≡ []
unfolding c_str
c_str-end [] end = refl
c_str-end (c ∷ cs) end = ground arith

pub c_str-fields :
    (separator : ℕ) (f : Text) (fs : List Text) (tail : List ℕ)
    → IsEnd tail
    → IsField separator f
    → c_str (f ++ (nul_fields fs ++ tail)) ≡ f
unfolding c_str
c_str-fields separator [] [] tail end h = c_str-end tail end
c_str-fields separator [] (g ∷ gs) tail end h = refl
c_str-fields separator (c ∷ f) fs tail end h =
    ground (arith, c_str-fields separator f fs tail end h.1, h.0.not_nul)

pub length-fill :
    (max_args pos count : ℕ) (args : List (Option ℕ)) (fs : List Text)
    → length (fill max_args pos count args fs) ≡ length args
length-fill max_args pos count args [] = refl
length-fill max_args pos count args (f ∷ fs) =
    length-fill max_args (pos + 1 + length f) (count + 1) _ fs ∙ stored (ltb count max_args)
  where
    stored : (b : Bool) → length (if b then set args count (some (pos + 1)) else args) ≡ length args
    stored true = length-set args count (some (pos + 1))
    stored false = refl

-- Later fields leave the entries of the earlier ones alone.
fill-keeps :
    (max_args pos count : ℕ) (args : List (Option ℕ)) (fs : List Text) (i : ℕ)
    → i < count
    → get_elem? (fill max_args pos count args fs) i ≡ get_elem? args i
fill-keeps max_args pos count args [] i h = refl
fill-keeps max_args pos count args (f ∷ fs) i h =
    fill-keeps max_args (pos + 1 + length f) (count + 1) _ fs i (omega arith)
    ∙ stored (ltb count max_args)
  where
    stored :
        (b : Bool)
        → get_elem? (if b then set args count (some (pos + 1)) else args) i ≡ get_elem? args i
    stored true = get_elem?-set_ne args count i (some (pos + 1)) (omega arith)
    stored false = refl

fill-sets :
    (max_args pos count : ℕ) (args : List (Option ℕ)) (f : Text) (fs : List Text)
    → length args ≡ max_args
    → count < max_args
    → get_elem? (fill max_args pos count args (f ∷ fs)) count ≡ some (some (pos + 1))
fill-sets max_args pos count args f fs sized lt =
    fill-keeps max_args (pos + 1 + length f) (count + 1) _ fs count (omega arith)
    ∙ rw (lt→ltb count max_args lt)
        (get_elem?-set_self args count (some (pos + 1)) (omega (arith, sized)))

arg-at :
    (r : Parsed) (i pos : ℕ)
    → get_elem? r.args i ≡ some (some pos)
    → arg r i ≡ some (at_offset r.buffer pos)
unfolding arg
arg-at r i pos e = rw (e, arg)

module _ (separator max_args : ℕ) (tail : List ℕ) (end : IsEnd tail) where
  after-separator :
      (pre f : Text) (fs : List Text)
      → IsField separator f
      → at_offset (pre ++ (nul_fields (f ∷ fs) ++ tail)) (length pre + 1) ≡ f
  after-separator pre f fs h =
      let dropped : drop (length pre + 1) (pre ++ (nul_fields (f ∷ fs) ++ tail))
          ≡ (f ++ nul_fields fs) ++ tail =
        rw
          (← length-append pre (0 ∷ []), ← append_assoc pre (0 ∷ []) ((f ++ nul_fields fs) ++ tail))
          (drop-append (pre ++ 0 ∷ []) ((f ++ nul_fields fs) ++ tail)) in
      rw (dropped, append_assoc f (nul_fields fs) tail) (c_str-fields separator f fs tail end h)

  -- The entry of each field points to the field's string.
  pub arg-fill :
      (pre : Text) (count : ℕ) (args : List (Option ℕ)) (fs : List Text) (r i : ℕ) (f : Text)
      → length args ≡ max_args
      → All (IsField separator) fs
      → count + i < max_args
      → get_elem? fs i ≡ some f
      → arg
          (record {
            ret = r;
            buffer = pre ++ (nul_fields fs ++ tail);
            args = fill max_args (length pre) count args fs;
          })
          (count + i)
        ≡ some f
  arg-fill pre count args [] r i f sized ok lt e = absurd (ground arith)
  arg-fill pre count args (g ∷ gs) r zero f sized ok lt e = rw (add-zero count) (
      arg-at _ count (length pre + 1)
        (fill-sets max_args (length pre) count args g gs sized (omega arith))
      ∙ ap some (after-separator pre g gs ok.0)
      ∙ e)
  arg-fill pre count args (g ∷ gs) r (suc i) f sized ok lt e =
      let args' = if ltb count max_args then set args count (some (length pre + 1)) else args in
      let place : length (pre ++ 0 ∷ g) ≡ length pre + 1 + length g =
        omega (arith, length-append pre (0 ∷ g)) in
      let index : count + 1 + i ≡ count + suc i = omega arith in
      rw (append_assoc g (nul_fields gs) tail) (
        rw (append_assoc pre (0 ∷ g) (nul_fields gs ++ tail), place, index) at
          (arg-fill (pre ++ 0 ∷ g) (count + 1) args' gs r i f (stored (ltb count max_args)) ok.1
            (omega arith) e))
    where
      stored :
          (b : Bool)
          → length (if b then set args count (some (length pre + 1)) else args) ≡ max_args
      stored true = length-set args count (some (length pre + 1)) ∙ sized
      stored false = sized
