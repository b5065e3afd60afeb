-- ===== src/Hub/Take/Held.antt =====
-- What the components and the device hold of a device's message, as the strings in their arrays.
use sensaurus.Prelude.{
  ℕ, zero, suc, ◌<◌, ◌≤◌, ◌≡◌, ◌≢◌, refl, ap, ◌∙◌, length-map, arith, true, List, [], ◌∷◌, some,
  map, get_or, length, ◌==◌, Bool-cases, inl, inr, if◌then◌else◌, All, Text, codes,
}
use sensaurus.CText.{c_str}
use sensaurus.CText.Copy.{IsText, c_str-strncpy}
use sensaurus.Sensaur.Parse.{message, fields, IsMessage}
use sensaurus.SensaurDevice.{
  Component, set_value, set_info, Device, set_id, set_version, set_component_count,
}
use sensaurus.SensaurDevice.Info.{HasInfo, IsSized, IsPart, set_info_lem}
use sensaurus.Hub.{take_message}
use sensaurus.Hub.Take.{give_values, give_infos, take_metadata_message}

-- A value that the array of ten characters holds with its NUL.
abbrev pub IsValue : Text → Type 0
IsValue f = IsText f × (length f < 10)

-- What an info text says: a direction, and up to three parts.
abbrev pub Info : Type 0
Info = ℕ × List Text

abbrev pub info_text : Info → Text
info_text info = info.0 ∷ fields b',' info.1

abbrev pub IsInfo : Info → Type 0
IsInfo info = (info.0 ≢ b',') × (length info.1 ≤ 3) × All IsPart info.1 × All IsText info.1

module _ {Float : Type 0} where
  -- What the inputs among the first `n` components hold once they have been given these values: as a
  -- C string, the value that is theirs. Nothing else of a component changes.
  unfoldable pub HoldValues :
      List (Component Float) → ℕ → List Text → List (Component Float) → Type 0
  HoldValues [] n fs es = es ≡ []
  HoldValues (c ∷ cs) zero fs es = es ≡ c ∷ cs
  HoldValues (c ∷ cs) (suc n) [] es = es ≡ c ∷ cs
  HoldValues (c ∷ cs) (suc n) (f ∷ fs) [] = ⊥
  HoldValues (c ∷ cs) (suc n) (f ∷ fs) (e ∷ es) =
      if c.dir == b'i'
      then (c_str e.value ≡ f) × (e ≡ record c { value = e.value }) × HoldValues cs n fs es
      else (e ≡ c) × HoldValues cs n (f ∷ fs) es

  pub give_values-HoldValues :
      (cs : List (Component Float)) (n : ℕ) (fs : List Text)
      → All (λ c. length c.value ≡ 10) cs
      → All IsValue fs
      → HoldValues cs n fs (give_values cs n fs)
  unfolding give_values HoldValues set_value
  give_values-HoldValues [] n fs sizes short = refl
  give_values-HoldValues (c ∷ cs) zero fs sizes short = refl
  give_values-HoldValues (c ∷ cs) (suc n) [] sizes short = refl
  give_values-HoldValues (c ∷ cs) (suc n) (f ∷ fs) (size, sizes) ((clean, small), short) =
      elim (Bool-cases (c.dir == b'i')) [
        | inl input ↦
            let given : give_values (c ∷ cs) (suc n) (f ∷ fs)
                ≡ set_value c f ∷ give_values cs n fs =
              rw input refl in
            rw (given, input)
              (
                c_str-strncpy c.value f 10 (omega arith) clean small,
                refl,
                give_values-HoldValues cs n fs sizes short,
              )
        | inr output ↦
            let given : give_values (c ∷ cs) (suc n) (f ∷ fs) ≡ c ∷ give_values cs n (f ∷ fs) =
              rw output refl in
            rw (given, output)
              (refl, give_values-HoldValues cs n (f ∷ fs) sizes ((clean, small), short))
      ]

  -- What the first components hold once they have been given these infos, each cut to its arrays;
  -- the value of a component stays, and so do the other components.
  unfoldable pub HoldInfos : List (Component Float) → List Info → List (Component Float) → Type 0
  HoldInfos cs [] es = es ≡ cs
  HoldInfos [] (i ∷ is) es = ⊥
  HoldInfos (c ∷ cs) (i ∷ is) [] = ⊥
  HoldInfos (c ∷ cs) (i ∷ is) (e ∷ es) =
      HasInfo e i.0 (get_or i.1 0 []) (get_or i.1 1 []) (get_or i.1 2 [])
      × (e.value ≡ c.value)
      × HoldInfos cs is es

  set_info-value : (c : Component Float) (info : Text) → (set_info c info).value ≡ c.value
  unfolding set_info
  set_info-value c info = refl

  give_infos-HoldInfos :
      (cs : List (Component Float)) (is : List Info)
      → length is ≤ length cs
      → All IsSized cs
      → All IsInfo is
      → HoldInfos cs is (give_infos cs (map info_text is))
  unfolding HoldInfos give_infos
  give_infos-HoldInfos [] [] room sizes ok = refl
  give_infos-HoldInfos (c ∷ cs) [] room sizes ok = refl
  give_infos-HoldInfos [] (i ∷ is) room sizes ok = absurd (omega arith)
  give_infos-HoldInfos (c ∷ cs) (i ∷ is) room (size, sizes) ((plain, few, parts, clean), ok) = (
    set_info_lem c size i.0 plain i.1 few parts clean,
    set_info-value c (info_text i),
    give_infos-HoldInfos cs is (omega arith) sizes ok,
  )

  set_component_count_few :
      (d : Device Float) (n : ℕ) → n ≤ 6 → (set_component_count d n).component_count ≡ n
  unfolding set_component_count
  set_component_count_few d n few = ground arith

  held_strings :
      (d : Device Float) (version id : Text) (n : ℕ)
      → length d.version ≡ 10
      → length d.id ≡ 38
      → IsText version
      → IsText id
      → length version < 10
      → length id < 38
      → let e = set_component_count (set_id (set_version d version) id) n in
        (c_str e.version ≡ version) × (c_str e.id ≡ id)
  unfolding set_component_count set_id set_version
  held_strings d version id n sv si hv hi lv li = (
    c_str-strncpy d.version version 10 (omega arith) hv lv,
    c_str-strncpy d.id id 38 (omega arith) hi li,
  )

  -- A metadata message of one to five components gives the device, with arrays of their declared
  -- sizes, its version, of at most 9 characters, its ID, of at most 37, and the number of its
  -- components, and each of these the direction, the type, the model and the units of its info, cut
  -- to the 19 characters that its arrays hold, with five characters of the type as suffix; the
  -- values stay, and the message is reported. The parts of the message are free of colon, semicolon,
  -- mark and NUL, each info has a direction other than a comma and at most three parts, free of
  -- commas.
  pub take_message_metadata :
      (d : Device Float) (version id : Text) (info : Info) (infos : List Info)
      → IsMessage 7 b';' (codes "m") (version ∷ id ∷ map info_text (info ∷ infos))
      → length d.components ≡ 6
      → All IsSized d.components
      → length d.version ≡ 10
      → length d.id ≡ 38
      → IsText version
      → IsText id
      → length version < 10
      → length id < 38
      → All IsInfo (info ∷ infos)
      → (d' : Device Float) × (take_message d
            (message b';' (codes "m") (version ∷ id ∷ map info_text (info ∷ infos)))
          ≡ some (d', true))
        × (c_str d'.version ≡ version)
        × (c_str d'.id ≡ id)
        × (d'.component_count ≡ suc (length infos))
        × HoldInfos d.components (info ∷ infos) d'.components
  take_message_metadata d version id info infos ok size sizes sv si hv hi lv li infos_ok =
      let texts = map info_text infos in
      let counted : length texts ≡ length infos = length-map info_text infos in
      let n = suc (length texts) in
      let few : n ≤ 5 = omega (arith, ok.fits) in
      let named = set_component_count (set_id (set_version d version) id) n in
      let (version_is, id_is) = held_strings d version id n sv si hv hi lv li in
      (
        record named { components = give_infos d.components (map info_text (info ∷ infos)) },
        take_metadata_message d version id (info_text info) texts ok size,
        version_is,
        id_is,
        set_component_count_few (set_id (set_version d version) id) n (omega arith)
            ∙ ap suc counted,
        give_infos-HoldInfos d.components (info ∷ infos) (omega (arith, few, counted, size)) sizes
            infos_ok,
      )
