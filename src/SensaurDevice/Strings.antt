-- ===== src/SensaurDevice/Strings.antt =====
-- The strings that the setters copy with no NUL of their own: values, versions and device IDs.
use sensaurus.Prelude.{◌≤◌, ◌<◌, ◌≡◌, arith, Text, length}
use sensaurus.CText.{c_str}
use sensaurus.CText.Copy.{strncpy-open, IsText, IsTerminated, c_str-strncpy}
use sensaurus.SensaurDevice.{Component, Device, set_value, set_version, set_id}

-- A value of at most 9 characters, a version of at most 9 and a device ID of at most 37, without
-- NULs, are held as they are, in arrays of the declared sizes.
pub setters_hold :
    {Float : Type 0} (c : Component Float) (d : Device Float) (value version id : Text)
    → length c.value ≡ 10
    → length d.version ≡ 10
    → length d.id ≡ 38
    → IsText value
    → IsText version
    → IsText id
    → length value < 10
    → length version < 10
    → length id < 38
    → (c_str (set_value c value).value ≡ value)
      × (c_str (set_version d version).version ≡ version)
      × (c_str (set_id d id).id ≡ id)
unfolding set_value set_version set_id
setters_hold c d value version id sc sv si hc hv hi lc lv li = (
  c_str-strncpy c.value value 10 (omega arith) hc lc,
  c_str-strncpy d.version version 10 (omega arith) hv lv,
  c_str-strncpy d.id id 38 (omega arith) hi li,
)

-- A value or a version of 10 characters or more and a device ID of 38 or more, without NULs, leave
-- their arrays, of the declared sizes, with no NUL in them, so that whatever reads the string reads
-- on beyond the array.
pub setters_unterminated :
    {Float : Type 0} (c : Component Float) (d : Device Float) (value version id : Text)
    → length c.value ≡ 10
    → length d.version ≡ 10
    → length d.id ≡ 38
    → IsText value
    → IsText version
    → IsText id
    → 10 ≤ length value
    → 10 ≤ length version
    → 38 ≤ length id
    → (¬ IsTerminated (set_value c value).value)
      × (¬ IsTerminated (set_version d version).version)
      × (¬ IsTerminated (set_id d id).id)
unfolding set_value set_version set_id
setters_unterminated c d value version id sc sv si hc hv hi lc lv li = (
  rw sc at (strncpy-open c.value value hc (omega arith)),
  rw sv at (strncpy-open d.version version hv (omega arith)),
  rw si at (strncpy-open d.id id hi (omega arith)),
)
