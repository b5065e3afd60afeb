-- ===== src/Hub/Take.antt =====
-- What the hub takes over from a device's message.
pub mod Held
pub mod Six
use sensaurus.Prelude.{
  ℕ, zero, suc, ◌+◌, ◌-◌, ◌<◌, ◌≤◌, ◌≡◌, refl, arith, true, false, List, [], ◌∷◌, none, some, map,
  length, ltb, ◌==◌, if◌then◌else◌, Bool-cases, Option-cases, inl, inr, if◌then◌else◌, All, Text,
  codes,
}
use sensaurus.CText.{c_str}
use sensaurus.CText.Copy.{IsText, c_str-strncpy}
use sensaurus.Sensaur.{esp32, Parsed, parse_message, arg}
use sensaurus.Sensaur.Shape.{arg_beyond}
use sensaurus.Sensaur.Parse.{message, IsMessage, Reads, arg_list, parse_message-message}
use sensaurus.SensaurDevice.{
  Component, set_value, set_info, Device, set_id, set_version, set_component_count,
}
use sensaurus.Hub.{take_values, take_infos, take_components, take_metadata, take_message}

module _ {Float : Type 0} where
  -- The specification: values go to the inputs among the first `n` components, in order.
  unfoldable pub give_values : List (Component Float) → ℕ → List Text → List (Component Float)
  give_values [] n fs = []
  give_values (c ∷ cs) zero fs = c ∷ cs
  give_values (c ∷ cs) (suc n) [] = c ∷ cs
  give_values (c ∷ cs) (suc n) (f ∷ fs) =
      let taken = give_values cs n fs in
      let skipped = give_values cs n (f ∷ fs) in
      if c.dir == b'i' then set_value c f ∷ taken else c ∷ skipped

  -- The specification: each component takes its info.
  unfoldable pub give_infos : List (Component Float) → List Text → List (Component Float)
  give_infos cs [] = cs
  give_infos [] (f ∷ fs) = []
  give_infos (c ∷ cs) (f ∷ fs) = set_info c f ∷ give_infos cs fs

  take_values_none :
      (cs : List (Component Float)) (n : ℕ) (r : Parsed) (k : ℕ)
      → r.ret ≡ k
      → take_values cs n r k ≡ some cs
  unfolding take_values
  take_values_none [] n r k e = refl
  take_values_none (c ∷ cs) zero r k e = refl
  take_values_none (c ∷ cs) (suc n) r k e =
      let over : ltb k r.ret ≡ false = ground arith in
      ground (arith, over, take_values_none cs n r k e)

  take_values_lem :
      (cs : List (Component Float)) (n : ℕ) (r : Parsed) (k : ℕ) (fs : List Text)
      → r.ret ≡ k + length fs
      → arg_list r k (length fs) ≡ map some fs
      → take_values cs n r k ≡ some (give_values cs n fs)
  unfolding take_values give_values
  take_values_lem [] n r k fs e given = refl
  take_values_lem (c ∷ cs) zero r k fs e given = refl
  take_values_lem (c ∷ cs) (suc n) r k [] e given =
      take_values_none (c ∷ cs) (suc n) r k (omega arith)
  take_values_lem (c ∷ cs) (suc n) r k (f ∷ fs) e given =
      let first : arg r k ≡ some f = ground arith in
      let others : arg_list r (k + 1) (length fs) ≡ map some fs = ground arith in
      let inside : ltb k r.ret ≡ true = ground arith in
      elim (Bool-cases (c.dir == b'i')) [
        | inl input ↦ rw (
          take_values,
          input,
          inside,
          first,
          take_values_lem cs n r (k + 1) fs (omega arith) others,
        )
        | inr output ↦ rw (take_values, output, take_values_lem cs n r k (f ∷ fs) e given)
      ]

  take_infos_lem :
      (cs : List (Component Float)) (r : Parsed) (k : ℕ) (fs : List Text)
      → length fs ≤ length cs
      → arg_list r k (length fs) ≡ map some fs
      → take_infos cs (length fs) r k ≡ some (give_infos cs fs)
  unfolding take_infos give_infos
  take_infos_lem [] r k [] room given = refl
  take_infos_lem (c ∷ cs) r k [] room given = refl
  take_infos_lem [] r k (f ∷ fs) room given = absurd (omega arith)
  take_infos_lem (c ∷ cs) r k (f ∷ fs) room given =
      let first : arg r k ≡ some f = ground arith in
      let others : arg_list r (k + 1) (length fs) ≡ map some fs = ground arith in
      rw (take_infos, first, take_infos_lem cs r (k + 1) fs (omega arith) others)

  values_taken :
      (d : Device Float) (fs : List Text)
      → IsMessage 7 b',' (codes "v") fs
      → take_values d.components d.component_count
          (parse_message esp32 (message b',' (codes "v") fs) 7 b',')
          0
        ≡ some (give_values d.components d.component_count fs)
  values_taken d fs ok =
      let reads = parse_message-message esp32 7 b',' (codes "v") fs ok in
      take_values_lem d.components d.component_count _ 0 fs (omega (arith, reads.ret_is))
        reads.args_are

  -- A values message, with at most seven values, gives each input among the components in use its
  -- value, in the order of the components, and changes nothing else.
  pub take_message_values :
      (d : Device Float) (fs : List Text)
      → IsMessage 7 b',' (codes "v") fs
      → take_message d (message b',' (codes "v") fs)
        ≡ some (record d { components = give_values d.components d.component_count fs }, false)
  unfolding take_message
  take_message_values d [] ok = rw (take_message, values_taken d [] ok)
  take_message_values d (f ∷ fs) ok = rw (take_message, values_taken d (f ∷ fs) ok)

  take_metadata_lem :
      (d : Device Float) (version id : Text) (infos : List Text) (r : Parsed)
      → Reads (codes "m") (version ∷ id ∷ infos) r
      → length infos ≤ 6
      → length d.components ≡ 6
      → take_metadata d r
        ≡ some (record (set_component_count (set_id (set_version d version) id) (length infos)) {
          components = give_infos d.components infos;
        })
  unfolding take_metadata take_components
  take_metadata_lem d version id infos r reads few size =
      let given : arg r 0 ∷ arg r 1 ∷ arg_list r 2 (length infos)
          ≡ some version ∷ some id ∷ map some infos =
        reads.args_are in
      let first : arg r 0 ≡ some version = ground arith in
      let second : arg r 1 ≡ some id = ground arith in
      let others : arg_list r 2 (length infos) ≡ map some infos = ground arith in
      let count : (if ltb 6 (r.ret - 2) then 6 else r.ret - 2) ≡ length infos =
        ground (arith, reads.ret_is) in
      let taken = take_infos_lem d.components r 2 infos (omega arith) others in
      rw (take_metadata, first, second, count) (rw (take_components, taken))

  pub take_metadata_message :
      (d : Device Float) (version id info : Text) (infos : List Text)
      → IsMessage 7 b';' (codes "m") (version ∷ id ∷ info ∷ infos)
      → length d.components ≡ 6
      → take_message d (message b';' (codes "m") (version ∷ id ∷ info ∷ infos))
        ≡ some (
          record (set_component_count (set_id (set_version d version) id) (suc (length infos))) {
            components = give_infos d.components (info ∷ infos);
          },
          true,
        )
  unfolding take_message
  take_metadata_message d version id info infos ok size =
      let text = message b';' (codes "m") (version ∷ id ∷ info ∷ infos) in
      let r = parse_message esp32 text 7 b';' in
      let reads = parse_message-message esp32 7 b';' (codes "m") (version ∷ id ∷ info ∷ infos) ok in
      let more : ltb 2 r.ret ≡ true = ground (arith, reads.ret_is) in
      let taken =
        take_metadata_lem d version id (info ∷ infos) r reads (omega (arith, ok.fits)) size in
      rw (take_message, more, taken)
