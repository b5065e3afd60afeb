-- ===== src/SensaurDevice/Info.antt =====
-- What `setInfo` makes of a component's info text, such as "i,CO2,K-30,PPM".
mod Positions
mod Parts
pub use Positions.{find_starts-part, IsPart}
use Positions.{find_starts-part, part_len_lem, one_start, two_starts, three_starts}
use Parts.{
  c_str-part, c_str-copy_none, id_suffix_lem, id_suffix-IsTerminated, copy_part-IsTerminated,
}
use native.Mathlib.Nat.{add-zero}
use sensaurus.Prelude.{
  ℕ, zero, suc, ◌+◌, ◌-◌, ◌≤◌, ◌<◌, ◌≡◌, ◌≢◌, refl, sym, ap, ◌∙◌, arith, Bool, true, false, List,
  [], ◌∷◌, ◌++◌, All, Text, length, take, drop, set, get_or, min, length-append, length-set,
  take-take, take-append_le, drop-append, append_assoc, append-nil, ◌==◌, leb, if◌then◌else◌,
}
use sensaurus.CText.{c_str, strncpy}
use sensaurus.CText.Copy.{
  IsText, IsTerminated, IsText-take, c_str-set, length-c_str-set_le, c_str-IsText, length-strncpy,
  take-strncpy, c_str-set-strncpy,
}
use sensaurus.Sensaur.Parse.{fields}
use sensaurus.SensaurDevice.{
  Component, Starts, no_starts, at_comma, find_starts, part_len, clip_len, copy_part, set_info,
}

abbrev pub HasInfo : {Float : Type 0} → Component Float → ℕ → Text → Text → Text → Type 0
HasInfo c dir type model units =
    (c.dir ≡ dir)
    × (c_str c.type ≡ take 19 type)
    × (c_str c.model ≡ take 19 model)
    × (c_str c.units ≡ take 19 units)
    × (c_str c.id_suffix ≡ take 5 type)

-- The arrays of a component have the sizes that it declares.
pub record IsSized {Float : Type 0} (c : Component Float) : Type 0 where
  pub value_size : length c.value ≡ 10
  pub type_size : length c.type ≡ 20
  pub model_size : length c.model ≡ 20
  pub units_size : length c.units ≡ 20
  pub suffix_size : length c.id_suffix ≡ 6

module _ {Float : Type 0} (c : Component Float) (sized : IsSized c) (d : ℕ) (plain : d ≢ b',') where
  set_info-one :
      (t : Text) → IsPart t → IsText t → HasInfo (set_info c (d ∷ fields b',' (t ∷ []))) d t [] []
  unfolding set_info
  set_info-one t h ht =
      let info = d ∷ fields b',' (t ∷ []) in
      let len : part_len 2 0 (length info) ≡ length t =
        part_len_lem 2 0 (length info) (omega arith) ∙ omega (arith, length-append t []) in
      let type = c_str-part c.type info (d ∷ b',' ∷ []) t [] 2 _ sized.type_size ht refl refl len in
      let none_len : part_len 0 0 (length info) ≡ 0 = unfold part_len in refl in
      rw (one_start d plain t h, none_len)
        (
          refl,
          type,
          c_str-copy_none c.model 19 sized.model_size info,
          c_str-copy_none c.units 19 sized.units_size info,
          id_suffix_lem c.id_suffix _ t sized.suffix_size type,
        )

  set_info-two :
      (t m : Text)
      → IsPart t
      → IsPart m
      → IsText t
      → IsText m
      → HasInfo (set_info c (d ∷ fields b',' (t ∷ m ∷ []))) d t m []
  unfolding set_info
  set_info-two t m h k ht hm =
      let info = d ∷ fields b',' (t ∷ m ∷ []) in
      let next = 1 + 1 + length t + 1 in
      let whole : length info ≡ next + length m =
        omega (arith, length-append t (b',' ∷ (m ++ [])), length-append m []) in
      let type_len : part_len 2 next (length info) ≡ length t =
        part_len_lem 2 next (length info) (omega arith) ∙ ground arith in
      let model_len : part_len next 0 (length info) ≡ length m =
        part_len_lem next 0 (length info) (omega arith) ∙ omega (arith, whole) in
      let type =
        c_str-part c.type info (d ∷ b',' ∷ []) t (b',' ∷ (m ++ [])) 2 _ sized.type_size ht refl refl
          type_len in
      let model =
        c_str-part c.model info (d ∷ b',' ∷ (t ++ b',' ∷ [])) m [] next _ sized.model_size hm
          (ap (λ r. d ∷ b',' ∷ r) (sym (append_assoc t (b',' ∷ []) (m ++ []))))
          (omega (arith, length-append t (b',' ∷ []))) model_len in
      rw (two_starts d plain t m h k) (
        refl,
        type,
        model,
        c_str-copy_none c.units 19 sized.units_size info,
        id_suffix_lem c.id_suffix _ t sized.suffix_size type,
      )

  set_info-three :
      (t m u : Text)
      → IsPart t
      → IsPart m
      → IsPart u
      → IsText t
      → IsText m
      → IsText u
      → HasInfo (set_info c (d ∷ fields b',' (t ∷ m ∷ u ∷ []))) d t m u
  unfolding set_info
  set_info-three t m u h k l ht hm hu =
      let info = d ∷ fields b',' (t ∷ m ∷ u ∷ []) in
      let next = 1 + 1 + length t + 1 in
      let last = next + length m + 1 in
      let whole : length info ≡ last + length u = omega (
        arith,
        length-append t (b',' ∷ (m ++ b',' ∷ (u ++ []))),
        length-append m (b',' ∷ (u ++ [])),
        length-append u [],
      ) in
      let type_len : part_len 2 next (length info) ≡ length t =
        part_len_lem 2 next (length info) (omega arith) ∙ ground arith in
      let model_len : part_len next last (length info) ≡ length m =
        part_len_lem next last (length info) (omega arith) ∙ ground arith in
      let units_len : (if last == 0 then 0 else length info - last) ≡ length u =
        ground (arith, whole) in
      let type =
        c_str-part c.type info (d ∷ b',' ∷ []) t (b',' ∷ (m ++ b',' ∷ (u ++ []))) 2 _
          sized.type_size ht refl refl type_len in
      let model =
        c_str-part c.model info (d ∷ b',' ∷ (t ++ b',' ∷ [])) m (b',' ∷ (u ++ [])) next _
          sized.model_size hm
          (ap (λ r. d ∷ b',' ∷ r) (sym (append_assoc t (b',' ∷ []) (m ++ b',' ∷ (u ++ [])))))
          (omega (arith, length-append t (b',' ∷ []))) model_len in
      let units =
        c_str-part c.units info (d ∷ b',' ∷ (t ++ b',' ∷ (m ++ b',' ∷ []))) u [] last _
          sized.units_size hu (ap (λ r. d ∷ b',' ∷ r) (regroup t m u))
          (omega (arith, length-append t (b',' ∷ (m ++ b',' ∷ [])), length-append m (b',' ∷ [])))
          units_len in
      rw (three_starts d plain t m u h k l)
        (refl, type, model, units, id_suffix_lem c.id_suffix _ t sized.suffix_size type)
    where
      regroup :
          (x y z : Text)
          → x ++ b',' ∷ (y ++ b',' ∷ (z ++ [])) ≡ (x ++ b',' ∷ (y ++ b',' ∷ [])) ++ (z ++ [])
      regroup x y z = rw (append_assoc x (b',' ∷ (y ++ b',' ∷ [])), append_assoc y (b',' ∷ []))

  -- From an info text with a direction, other than a comma, and at most three parts, free of commas
  -- and NULs, `setInfo` takes the direction, the type, the model and the units, each cut to the 19
  -- characters that its array holds, and the first five characters of the type as the ID suffix. An
  -- absent part leaves an empty string. The arrays have their declared sizes.
  pub set_info_lem :
      (parts : List Text)
      → length parts ≤ 3
      → All IsPart parts
      → All IsText parts
      → HasInfo
          (set_info c (d ∷ fields b',' parts))
          d
          (get_or parts 0 [])
          (get_or parts 1 [])
          (get_or parts 2 [])
  set_info_lem [] few h k =
      unfold set_info part_len in
      let info = d ∷ [] in
      let type = c_str-copy_none c.type 19 sized.type_size info in
      rw (find_starts-part no_starts 0 (d ∷ []) [] (plain, tt)) (
        refl,
        type,
        c_str-copy_none c.model 19 sized.model_size info,
        c_str-copy_none c.units 19 sized.units_size info,
        id_suffix_lem c.id_suffix (copy_part c.type info 0 (clip_len 20 0)) [] sized.suffix_size
            type,
      )
  set_info_lem (t ∷ []) few h k = set_info-one t h.0 k.0
  set_info_lem (t ∷ m ∷ []) few h k = set_info-two t m h.0 h.1.0 k.0 k.1.0
  set_info_lem (t ∷ m ∷ u ∷ []) few h k = set_info-three t m u h.0 h.1.0 h.1.1.0 k.0 k.1.0 k.1.1.0
  set_info_lem (t ∷ m ∷ u ∷ w ∷ parts) few h k = absurd (omega arith)

-- Whatever the info text is, the arrays of a component, of their declared sizes, keep these sizes,
-- and the strings in them, other than the value, are ended.
pub set_info-IsTerminated :
    {Float : Type 0} (c : Component Float) (info : Text)
    → IsSized c
    → let e = set_info c info in
      IsSized e
      × IsTerminated e.type
      × IsTerminated e.model
      × IsTerminated e.units
      × IsTerminated e.id_suffix
unfolding set_info
set_info-IsTerminated c info sized =
    let s = find_starts no_starts 0 info in
    let type =
      copy_part-IsTerminated c.type 19 sized.type_size info s.type_start
        (part_len s.type_start s.model_start (length info)) in
    let model =
      copy_part-IsTerminated c.model 19 sized.model_size info s.model_start
        (part_len s.model_start s.units_start (length info)) in
    let units =
      copy_part-IsTerminated c.units 19 sized.units_size info s.units_start
        (if s.units_start == 0 then 0 else length info - s.units_start) in
    let suffix = id_suffix-IsTerminated c.id_suffix _ sized.suffix_size in
    (
      record {
        value_size = sized.value_size;
        type_size = type.0 ∙ sized.type_size;
        model_size = model.0 ∙ sized.model_size;
        units_size = units.0 ∙ sized.units_size;
        suffix_size = suffix.0;
      },
      type.1,
      model.1,
      units.1,
      suffix.1,
    )
