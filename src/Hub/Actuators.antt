-- ===== src/Hub/Actuators.antt =====
-- `updateActuators` of hub-esp32/hub-esp32.ino: the values that the server sets go to the devices.
-- The JSON object is the list of its members; a key names a component by its device's ID, a dash
-- and the suffix of the component. Where a key has no dash, `substring` returns all of it twice.
pub mod Settings
mod Tests
use sensaurus.Prelude.{
  ℕ, zero, suc, ◌+◌, Bool, true, false, ◌||◌, List, [], ◌∷◌, ◌++◌, Option, none, some, set,
  get_elem?, ◌==◌, if◌then◌else◌, Text, codes,
}
use sensaurus.CText.{c_str, text_eq}
use sensaurus.CText.Number.{Printer}
use sensaurus.CheckStream.{CheckStream, write_all, crlf}
use sensaurus.SensaurDevice.{Component, set_actuator_value, Device}
use sensaurus.Hub.{Hub}
use sensaurus.Hub.Receive.{wait_for_response}

-- The text before the first dash and the text behind it.
unfoldable pub split_dash : Text → Option (Text × Text)
split_dash [] = none
split_dash (c ∷ cs) =
    let rest = split_dash cs in
    if c == b'-'
    then some ([], cs)
    else elim rest [ none ↦ none | some (before, behind) ↦ some (c ∷ before, behind) ]

unfoldable pub component_name : Text → Text × Text
unfolding split_dash
component_name key = elim (split_dash key) [ none ↦ (key, key) | some name ↦ name ]

-- Print each text in turn, then the line end.
unfoldable pub print_parts : Printer → CheckStream → List Text → CheckStream
print_parts p out [] = write_all p false out crlf
print_parts p out (t ∷ ts) = print_parts p (write_all p false out t) ts

module _ {Float : Type 0} where
  -- The loop over the first `n` components, for one member of the object.
  unfoldable pub set_named :
      List (Component Float) → ℕ → Text → Float → List (Component Float) × Bool
  set_named [] n suffix v = ([], false)
  set_named (c ∷ cs) zero suffix v = (c ∷ cs, false)
  set_named (c ∷ cs) (suc n) suffix v =
      let (others, updated) = set_named cs n suffix v in
      if text_eq suffix (c_str c.id_suffix)
      then (set_actuator_value c v ∷ others, true)
      else (c ∷ others, updated)

  -- The loop over the members of the object, for one device.
  unfoldable pub apply_members : Device Float → List (Text × Float) → Device Float × Bool
  unfolding set_named component_name
  apply_members d [] = (d, false)
  apply_members d ((key, v) ∷ members) =
      let (id, suffix) = component_name key in
      let (components, found) = set_named d.components d.component_count suffix v in
      let own = text_eq id (c_str d.id) in
      let next : Device Float = if own then record d { components = components } else d in
      let (last, later) = apply_members next members in
      (last, (if own then found else false) || later)

  -- What is printed for the outputs among the first `n` components.
  unfoldable pub output_parts : (Float → Text) → List (Component Float) → ℕ → Bool → List Text
  output_parts fixed [] n first = []
  output_parts fixed (c ∷ cs) zero first = []
  output_parts fixed (c ∷ cs) (suc n) first =
      let others = output_parts fixed cs n false in
      let same = output_parts fixed cs n first in
      if c.dir == b'o'
      then (if first
          then fixed c.actuator_value ∷ others
          else codes "," ∷ fixed c.actuator_value ∷ others)
      else same

  -- The loop over the devices that are left, from the `i`-th on; `answers` holds the bytes that each
  -- of them sends back, if it is told anything.
  unfoldable pub update_actuators :
      Printer
      → (ℕ → Text)
      → (Float → Text)
      → Hub Float
      → ℕ
      → ℕ
      → List (Text × Float)
      → List (List (ℕ × ℕ))
      → Option (Hub Float)
  unfolding apply_members output_parts print_parts
  update_actuators p dec fixed s time i members [] = some s
  update_actuators p dec fixed s time i members (reads ∷ answers) =
      let skipped = update_actuators p dec fixed s time (i + 1) members answers in
      elim (get_elem? s.devices i) [
        | none ↦ skipped
        | some d ↦
            let (d', updated) = apply_members d members in
            let known : Hub Float = record s { devices = set s.devices i d' } in
            let unsent = update_actuators p dec fixed known time (i + 1) members answers in
            let parts = codes "s:" ∷ output_parts fixed d'.components d'.component_count true in
            if d.component_count == 0
            then skipped
            else if updated
            then elim (get_elem? known.dev_stream i) [
              | none ↦ none
              | some out ↦
                  let told : Hub Float = record known {
                    dev_stream = set known.dev_stream i (print_parts p out parts);
                  } in
                  elim (wait_for_response dec told time i reads) [
                    | none ↦ none
                    | some s' ↦ update_actuators p dec fixed s' time (i + 1) members answers
                  ]
            ]
            else unsent
      ]
