-- ===== src/Hub/Report/Values.antt =====
-- The members of the message of `sendSensorValues`.
use sensaurus.Prelude.{
  ℕ, zero, suc, ◌+◌, ◌≡◌, ◌∙◌, refl, arith, Bool, true, false, none, List, [], ◌∷◌, ◌++◌,
  if◌then◌else◌, map, sym, append-nil, append_assoc, length-append, take, length, Bool-cases, inl,
  inr, Text, codes,
}
use sensaurus.CText.{c_str, text_eq}
use sensaurus.SensaurDevice.{Component, Device}
use sensaurus.Hub.Report.{replace_member, put_member, put_values, sensor_values}

-- No member of the list has this key.
abbrev pub Absent : {Float : Type 0} → Text → List (Text × Float) → Type 0
Absent key [] = Unit
Absent key ((k, v) ∷ members) = (text_eq k key ≡ false) × Absent key members

-- Each key is none of those of the members so far, nor of the list before it, and the document still
-- has room for it then.
abbrev pub Fresh :
    {Float : Type 0}
    → (List (Text × Float) → Text → Bool)
    → List (Text × Float)
    → List (Text × Float)
    → Type 0
Fresh room members [] = Unit
Fresh room members ((k, v) ∷ rest) =
    (Absent k members × (room members k ≡ true)) × Fresh room (members ++ (k, v) ∷ []) rest

module _ {Float : Type 0} (atof : Text → Float) where
  -- The reading of a component, of the device with this ID.
  abbrev pub reading : Text → Component Float → Text × Float
  reading id c = (id ++ codes "-" ++ c_str c.id_suffix, atof (c_str c.value))

  -- The readings of all components of the connected devices, in order.
  abbrev pub readings : List (Device Float) → List (Text × Float)
  readings [] = []
  readings (d ∷ ds) =
      (if d.connected then map (reading (c_str d.id)) (take d.component_count d.components) else [])
      ++ readings ds

replace_member-Absent :
    {Float : Type 0} (room : List (Text × Float) → Text → Bool) (members : List (Text × Float))
    (key : Text) (v : Float)
    → Absent key members
    → replace_member room members key v ≡ none
unfolding replace_member
replace_member-Absent room [] key v h = refl
replace_member-Absent room ((k, w) ∷ members) key v (apart, h) =
    rw (replace_member, apart, replace_member-Absent room members key v h)

put_member-Absent :
    {Float : Type 0} (room : List (Text × Float) → Text → Bool) (members : List (Text × Float))
    (key : Text) (v : Float)
    → Absent key members
    → room members key ≡ true
    → put_member room members key v ≡ members ++ (key, v) ∷ []
unfolding put_member
put_member-Absent room members key v h more =
    rw (put_member, replace_member-Absent room members key v h, more)

Fresh-append :
    {Float : Type 0} (room : List (Text × Float) → Text → Bool)
    (members front back : List (Text × Float))
    → Fresh room members (front ++ back)
    → Fresh room members front × Fresh room (members ++ front) back
Fresh-append room members [] back h = (tt, rw (append-nil members) h)
Fresh-append room members ((k, v) ∷ front) back (absent, h) =
    let (here, there) = Fresh-append room (members ++ (k, v) ∷ []) front back h in
    ((absent, here), rw⁻¹ (append_assoc members ((k, v) ∷ []) front) there)

same_pair : {A : Type 0} {a b : A} {m n : ℕ} → a ≡ b → m ≡ n → ◌≡◌ {A = A × ℕ} (a, m) (b, n)
same_pair p q = rw (p, q)

nothing_added :
    {A : Type 0} (members : List A) (count : ℕ)
    → ◌≡◌ {A = List A × ℕ} (members, count) (members ++ [], count + 0)
nothing_added members count = same_pair (sym (append-nil members)) (omega arith)

module _ {Float : Type 0} (room : List (Text × Float) → Text → Bool) (atof : Text → Float) where
  put_values-Fresh :
      (id : Text) (cs : List (Component Float)) (n : ℕ) (members : List (Text × Float)) (count : ℕ)
      → Fresh room members (map (reading atof id) (take n cs))
      → put_values room atof id cs n (members, count) ≡ (
        members ++ map (reading atof id) (take n cs),
        count + length (map (reading atof id) (take n cs)),
      )
  unfolding put_values
  put_values-Fresh id [] zero members count h = nothing_added members count
  put_values-Fresh id [] (suc n) members count h = nothing_added members count
  put_values-Fresh id (c ∷ cs) zero members count h = nothing_added members count
  put_values-Fresh id (c ∷ cs) (suc n) members count ((absent, more), h) =
      rw (put_member-Absent room members (reading atof id c).0 (reading atof id c).1 absent more) (
        put_values-Fresh id cs n (members ++ reading atof id c ∷ []) (count + 1) h
        ∙ same_pair
            (append_assoc members (reading atof id c ∷ []) (map (reading atof id) (take n cs)))
            (omega arith))

  sensor_values-Fresh :
      (ds : List (Device Float)) (members : List (Text × Float)) (count : ℕ)
      → Fresh room members (readings atof ds)
      → sensor_values room atof ds (members, count)
        ≡ (members ++ readings atof ds, count + length (readings atof ds))
  unfolding sensor_values
  sensor_values-Fresh [] members count h = nothing_added members count
  sensor_values-Fresh (d ∷ ds) members count h = elim (Bool-cases d.connected) [
    | inl there ↦
        let own = map (reading atof (c_str d.id)) (take d.component_count d.components) in
        let same : readings atof (d ∷ ds) ≡ own ++ readings atof ds = rw there refl in
        let (first, others) = Fresh-append room members own (readings atof ds) (rw⁻¹ same h) in
        rw
          (
            sensor_values,
            there,
            put_values-Fresh (c_str d.id) d.components d.component_count members count first,
          )
          (sensor_values-Fresh ds (members ++ own) (count + length own) others
            ∙ same_pair (append_assoc members own (readings atof ds))
                (omega (arith, length-append own (readings atof ds))))
    | inr away ↦
        let same : readings atof (d ∷ ds) ≡ readings atof ds = rw away refl in
        rw (sensor_values, away) (sensor_values-Fresh ds members count (rw⁻¹ same h))
  ]

  -- Where the document has room for each member in turn, and no two components of connected devices
  -- have the same key, which is the ID of the device
  -- with the suffix of the component, the message of the sensors' values has one member for each
  -- component of each connected device, in their order, with that key and the number that the
  -- component's value is read as, and the number of values told is that of the members.
  pub sensor_values_lem :
      (ds : List (Device Float))
      → Fresh room [] (readings atof ds)
      → sensor_values room atof ds ([], 0) ≡ (readings atof ds, length (readings atof ds))
  sensor_values_lem ds h = sensor_values-Fresh ds [] 0 h ∙ same_pair refl (omega arith)
