-- ===== src/Hub/Take/Six.antt =====
-- The metadata of six components.
use sensaurus.Prelude.{
  ℕ, zero, suc, ◌+◌, ◌-◌, ◌<◌, ◌≤◌, ◌≡◌, refl, arith, true, List, [], ◌∷◌, none, length, ltb,
  if◌then◌else◌, Option-cases, inl, inr, All, Text, codes,
}
use sensaurus.Sensaur.{esp32, Parsed, parse_message, arg}
use sensaurus.Sensaur.Shape.{arg_beyond}
use sensaurus.Sensaur.Parse.{message, IsField, parse_message-sizes}
use sensaurus.SensaurDevice.{Component, Device}
use sensaurus.Hub.{take_infos, take_components, take_metadata, take_message}

module _ {Float : Type 0} where
  take_infos_unset :
      (cs : List (Component Float)) (n : ℕ) (r : Parsed) (k : ℕ)
      → n ≤ length cs
      → 0 < n
      → length r.args < k + n
      → take_infos cs n r k ≡ none
  unfolding take_infos
  take_infos_unset [] n r k room pos over = absurd (omega arith)
  take_infos_unset (c ∷ cs) zero r k room pos over = absurd (omega arith)
  take_infos_unset (c ∷ cs) (suc zero) r k room pos over =
      rw (take_infos, arg_beyond r k (omega arith))
  take_infos_unset (c ∷ cs) (suc (suc n)) r k room pos over =
      let last = take_infos_unset cs (suc n) r (k + 1) (omega arith) (omega arith) (omega arith) in
      elim (Option-cases (arg r k)) [
        | inl unset ↦ rw (take_infos, unset)
        | inr (text, given) ↦ rw (take_infos, given, last)
      ]

  take_metadata_unset :
      (d : Device Float) (r : Parsed)
      → length d.components ≡ 6
      → length r.args ≡ 7
      → r.ret ≡ 8
      → take_metadata d r ≡ none
  unfolding take_metadata take_components
  take_metadata_unset d r size seven eight =
      let count : (if ltb 6 (r.ret - 2) then 6 else r.ret - 2) ≡ 6 = ground arith in
      let unset = take_infos_unset d.components 6 r 2 (omega arith) (omega arith) (omega arith) in
      elim (Option-cases (arg r 0)) [
        | inl none_given ↦ rw (take_metadata, none_given)
        | inr (version, first) ↦ elim (Option-cases (arg r 1)) [
          | inl none_given ↦ rw (take_metadata, first, none_given)
          | inr (id, second) ↦
              rw (take_metadata, first, second, count) (rw (take_components, unset))
        ]
      ]

  -- The metadata of six components, which a device may have, has eight fields, of which the hub lets
  -- `parseMessage` store the pointers of seven: the hub then reads a pointer that was never set. The
  -- parts of the message are free of colon, semicolon, mark and NUL.
  pub take_message_six :
      (d : Device Float) (version id : Text) (infos : List Text)
      → length d.components ≡ 6
      → length infos ≡ 6
      → IsField b';' (codes "m")
      → All (IsField b';') (version ∷ id ∷ infos)
      → take_message d (message b';' (codes "m") (version ∷ id ∷ infos)) ≡ none
  unfolding take_message
  take_message_six d version id infos size six plain clean =
      let r = parse_message esp32 (message b';' (codes "m") (version ∷ id ∷ infos)) 7 b';' in
      let (ret, args) =
        parse_message-sizes esp32 7 b';' (codes "m") (version ∷ id ∷ infos) (inr refl) plain clean
          (omega arith) in
      let more : ltb 2 r.ret ≡ true = ground (arith, ret, six) in
      rw (take_message, more, take_metadata_unset d r size args (omega (arith, ret, six)))
