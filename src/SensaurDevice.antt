-- ===== src/SensaurDevice.antt =====
-- libraries/SensaurDevice: what the hub knows of a device and of its components.
pub mod Info
pub mod Strings
mod Tests
use sensaurus.Prelude.{
  ℕ, zero, suc, ◌+◌, ◌-◌, ◌%◌, ◌^◌, Bool, true, false, List, [], ◌∷◌, ◌++◌, Option, none, some, set,
  get_or, take, drop, replicate, length, leb, ltb, ◌==◌, if◌then◌else◌, Text,
}
use sensaurus.CText.{c_str, strncpy}

abbrev pub max_component_count : ℕ
max_component_count = 6

abbrev pub max_type_len : ℕ
max_type_len = 20

abbrev pub max_model_len : ℕ
max_model_len = 20

abbrev pub max_units_len : ℕ
max_units_len = 20

abbrev pub max_device_id_len : ℕ
max_device_id_len = 38

-- The fields of `Component`, in order; each array holds as many characters as it is declared with.
-- A `float` is the type parameter `Float`.
pub record Component (Float : Type 0) : Type 0 where
  pub value : List ℕ
  pub dir : ℕ
  pub type : List ℕ
  pub model : List ℕ
  pub units : List ℕ
  pub id_suffix : List ℕ
  pub actuator_value : Float

-- A component before its constructor has run: the storage is zeroed, as that of the hub's
-- global `devices`.
abbrev pub blank_component : {Float : Type 0} → Float → Component Float
blank_component zero_value = record {
  value = replicate 10 0;
  dir = 0;
  type = replicate max_type_len 0;
  model = replicate max_model_len 0;
  units = replicate max_units_len 0;
  id_suffix = replicate 6 0;
  actuator_value = zero_value;
}

-- `Component::Component`.
pub component : {Float : Type 0} → Component Float → Component Float
component c = record c {
  dir = 0;
  type = set c.type 0 0;
  model = set c.model 0 0;
  units = set c.units 0 0;
  value = set c.value 0 0;
}

unfoldable pub set_value : {Float : Type 0} → Component Float → Text → Component Float
set_value c value = record c { value = strncpy c.value value 10 }

unfoldable pub set_actuator_value : {Float : Type 0} → Component Float → Float → Component Float
set_actuator_value c v = record c { actuator_value = v }

-- The starts of the parts of an info text, each 0 until its comma is met.
pub record Starts : Type 0 where
  pub part : ℕ
  pub type_start : ℕ
  pub model_start : ℕ
  pub units_start : ℕ

abbrev pub no_starts : Starts
no_starts = record { part = 0; type_start = 0; model_start = 0; units_start = 0 }

-- The body of the loop at a comma at `pos`.
pub at_comma : Starts → ℕ → Starts
at_comma s pos =
    let s' = record s { part = s.part + 1 } in
    if s'.part == 1
    then record s' { type_start = pos + 1 }
    else if s'.part == 2
    then record s' { model_start = pos + 1 }
    else if s'.part == 3
    then record s' { units_start = pos + 1 }
    else s'

-- The loop over the text from position `pos` on.
pub find_starts : Starts → ℕ → Text → Starts
unfolding at_comma
find_starts s pos [] = s
find_starts s pos (c ∷ cs) = find_starts (if c == b',' then at_comma s pos else s) (pos + 1) cs

-- The length of a part that starts at `start`, before the next part's start or the end.
pub part_len : ℕ → ℕ → ℕ → ℕ
part_len start next end =
    if start == 0 then 0 else if next == 0 then end - start else next - start - 1

-- `if (len >= max) len = max - 1`.
pub clip_len : ℕ → ℕ → ℕ
clip_len max_len len = if leb max_len len then max_len - 1 else len

-- Copy `len` characters from position `start` and end them with a NUL.
pub copy_part : List ℕ → Text → ℕ → ℕ → List ℕ
copy_part dst info start len = set (strncpy dst (drop start info) len) len 0

unfoldable pub set_info : {Float : Type 0} → Component Float → Text → Component Float
unfolding find_starts part_len clip_len copy_part
set_info c info =
    let s = find_starts no_starts 0 info in
    let pos = length info in
    let type_len = clip_len max_type_len (part_len s.type_start s.model_start pos) in
    let model_len = clip_len max_model_len (part_len s.model_start s.units_start pos) in
    let units_len =
      clip_len max_units_len (if s.units_start == 0 then 0 else pos - s.units_start) in
    let type = copy_part c.type info s.type_start type_len in
    record c {
      dir = get_or info 0 0;
      type = type;
      model = copy_part c.model info s.model_start model_len;
      units = copy_part c.units info s.units_start units_len;
      id_suffix = set (strncpy c.id_suffix (c_str type) 5) 5 0;
    }

pub record Device (Float : Type 0) : Type 0 where
  pub version : List ℕ
  pub id : List ℕ
  pub connected : Bool
  pub component_count : ℕ
  pub no_response_count : ℕ
  pub error_count : ℕ
  pub components : List (Component Float)

-- `Device::Device` over zeroed storage, which leaves the error count as it was.
pub device : {Float : Type 0} → Float → Device Float
unfolding component
device zero_value = record {
  version = replicate 10 0;
  id = replicate max_device_id_len 0;
  connected = false;
  component_count = 0;
  no_response_count = 0;
  error_count = 0;
  components = replicate max_component_count (component (blank_component zero_value));
}

module _ {Float : Type 0} where
  unfoldable pub set_id : Device Float → Text → Device Float
  set_id d id = record d { id = strncpy d.id id max_device_id_len }

  unfoldable pub set_version : Device Float → Text → Device Float
  set_version d version = record d { version = strncpy d.version version 10 }

  unfoldable pub set_connected : Device Float → Bool → Device Float
  set_connected d b = record d { connected = b }

  unfoldable pub no_response : Device Float → Device Float
  no_response d = record d { no_response_count = d.no_response_count + 1 }

  unfoldable pub responded : Device Float → Device Float
  responded d = record d { no_response_count = 0 }

  unfoldable pub reset_error_count : Device Float → Device Float
  reset_error_count d = record d { error_count = 0 }

  -- True once the device has failed three times in a row.
  unfoldable pub inc_error_count : Device Float → Device Float × Bool
  inc_error_count d =
      let d' = record d { error_count = d.error_count + 1 } in (d', leb 3 d'.error_count)

  unfoldable pub set_component_count : Device Float → ℕ → Device Float
  set_component_count d n = record d {
    component_count = if ltb n max_component_count then n else max_component_count;
  }

  unfoldable pub reset_components : Device Float → Device Float
  reset_components d = record d { component_count = 0 }

  -- Write the `i`-th component.
  pub set_component : Device Float → ℕ → Component Float → Device Float
  set_component d i c = record d { components = set d.components i c }
