-- ===== src/SensaurDevice/Tests.antt =====
-- A component made from an info text of the protocol, and the theorems at concrete texts.
use sensaurus.Prelude.{ℕ, refl, codes, arith, List, [], ◌∷◌, Text, replicate, false}
use sensaurus.CText.Copy.{IsTerminated}
use sensaurus.Sensaur.Parse.{fields}
use sensaurus.SensaurDevice.{Component, blank_component, Device, set_info}
use sensaurus.SensaurDevice.Info.{HasInfo, IsSized, set_info_lem, set_info-IsTerminated}

abbrev blank : Component ℕ
blank = blank_component 0

blank-IsSized : IsSized blank
blank-IsSized = record {
  value_size = refl;
  type_size = refl;
  model_size = refl;
  units_size = refl;
  suffix_size = refl;
}

abbrev parts : List Text
parts = codes "CO2" ∷ codes "K-30" ∷ codes "PPM" ∷ []

set_info_lem_example :
    HasInfo
      (set_info blank (b'i' ∷ fields b',' parts))
      b'i'
      (codes "CO2")
      (codes "K-30")
      (codes "PPM")
set_info_lem_example =
    set_info_lem blank blank-IsSized b'i' (omega arith) parts (omega arith) (omega arith)
      (omega arith)

set_info-IsTerminated_example :
    let e = set_info blank (codes "i,a,b,c,d") in
    IsSized e
    × IsTerminated e.type
    × IsTerminated e.model
    × IsTerminated e.units
    × IsTerminated e.id_suffix
set_info-IsTerminated_example = set_info-IsTerminated blank (codes "i,a,b,c,d") blank-IsSized

abbrev empty_device : Device ℕ
empty_device = record {
  version = replicate 10 0;
  id = replicate 38 0;
  connected = false;
  component_count = 0;
  no_response_count = 0;
  error_count = 0;
  components = [];
}
