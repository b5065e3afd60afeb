-- ===== src/Sketch/Identity.antt =====
-- `getDeviceId` and `randomId` of libraries/Sensaur/Sensaur.cpp: the ID that a device keeps in its
-- EEPROM. The Arduino core's generator is the parameter `random`: its number from 1 up to
-- 0x7ffffffe for a seed, given by the 16 bits of the AVR's `int`.
use sensaurus.Prelude.{
  ℕ, ◌+◌, ◌^◌, ◌<◌, ◌≡◌, ◌∙◌, arith, List, [], ◌∷◌, Bool-cases, inl, inr, ◌==◌, if◌then◌else◌, u16,
  u32,
}

abbrev pub id_marker : ℕ
id_marker = 0xD42E

-- The core's EEPROM, as its documentation states it, at the two places in use: a `uint16_t` at
-- address 0 and a `uint32_t` behind it.
pub record Eeprom : Type 1 where
  pub Memory : Type 0
  pub get_word : Memory → ℕ
  pub put_word : Memory → ℕ → Memory
  pub get_long : Memory → ℕ
  pub put_long : Memory → ℕ → Memory
  pub get_word-put_word : (m : Memory) (v : ℕ) → v < 2 ^ 16 → get_word (put_word m v) ≡ v
  pub get_word-put_long : (m : Memory) (v : ℕ) → get_word (put_long m v) ≡ get_word m
  pub get_long-put_long : (m : Memory) (v : ℕ) → v < 2 ^ 32 → get_long (put_long m v) ≡ v

abbrev pub sum : List ℕ → ℕ
sum [] = 0
sum (x ∷ xs) = x + sum xs

-- `pins` holds the readings of the pins from A0 to A7.
unfoldable pub random_id : (ℕ → ℕ) → List ℕ → ℕ
random_id random pins = u32 (random (u16 (0xf000 + sum pins)))

module _ (e : Eeprom) where
  unfoldable pub get_device_id : (ℕ → ℕ) → List ℕ → e.Memory → ℕ × e.Memory
  unfolding random_id
  get_device_id random pins mem =
      if e.get_word mem == id_marker
      then (e.get_long mem, mem)
      else (let id = random_id random pins in (id, e.put_long (e.put_word mem id_marker) id))

  -- A device keeps its ID: whatever its EEPROM held at first, every later start gets the ID of the
  -- first one and leaves the EEPROM as it is, whatever the generator and the pins give by then.
  pub get_device_id_stable :
      (random random' : ℕ → ℕ) (pins pins' : List ℕ) (mem : e.Memory)
      → let (id, kept) = get_device_id random pins mem in
        get_device_id random' pins' kept ≡ (id, kept)
  unfolding get_device_id random_id
  get_device_id_stable random random' pins pins' mem =
      elim (Bool-cases (e.get_word mem == id_marker)) [
        | inl marked ↦ rw (marked, marked)
        | inr fresh ↦
            let id = random_id random pins in
            let marker : e.get_word (e.put_long (e.put_word mem id_marker) id) ≡ id_marker =
              e.get_word-put_long (e.put_word mem id_marker) id
              ∙ e.get_word-put_word mem id_marker (omega arith) in
            let number : e.get_long (e.put_long (e.put_word mem id_marker) id) ≡ id =
              e.get_long-put_long (e.put_word mem id_marker) id (omega arith) in
            rw (fresh, marker, number)
      ]
