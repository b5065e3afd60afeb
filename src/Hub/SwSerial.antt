-- ===== src/Hub/SwSerial.antt =====
-- hub-esp32/hub-esp32.ino as it is built with USE_SWSERIAL: the hub polls a SoftwareSerial for each
-- byte of an answer, and prints its requests to it directly, without a checksum.
pub mod Same
mod Tests
use sensaurus.Prelude.{
  join, ℕ, ◌+◌, ◌-◌, Bool, true, false, List, [], ◌∷◌, ◌++◌, Option, none, some, set, get_elem?,
  ltb, ◌==◌, if◌then◌else◌, Text, codes,
}
use sensaurus.CheckStream.{CheckStream, crlf}
use sensaurus.SensaurDevice.{Device}
use sensaurus.Hub.{Hub, device_message_buf_len}
use sensaurus.Hub.Receive.{Reception, no_reception, handle_reception}
use sensaurus.Hub.Actuators.{apply_members, output_parts}

-- The loop over the polls of the line: the byte that has come in, if any, and the milliseconds
-- since the start. It ends at a control character, or once the time is over; no poll is left then.
unfoldable pub receive_polls : ℕ → List (Option ℕ × ℕ) → Reception → Reception
receive_polls timeout [] r = r
receive_polls timeout ((none, elapsed) ∷ polls) r =
    let rest = receive_polls timeout polls r in if ltb elapsed timeout then rest else r
receive_polls timeout ((some c, elapsed) ∷ polls) r =
    let seen : Reception = if ltb 127 c then record r { non_ascii = true } else r in
    let stored : Reception =
      if ltb seen.index (device_message_buf_len - 1)
      then record seen { message = set seen.message seen.index c; index = seen.index + 1 }
      else seen in
    let rest = receive_polls timeout polls stored in
    if ltb c 32 then seen else if ltb elapsed timeout then rest else stored

-- Print to the serial line of a device, below its CheckStream.
unfoldable pub print_raw : {Float : Type 0} → Hub Float → ℕ → Text → Hub Float
print_raw s i text = elim (get_elem? s.dev_stream i) [
  | none ↦ s
  | some out ↦ record s { dev_stream = set s.dev_stream i (record out { sent = out.sent ++ text }) }
]

module _ {Float : Type 0} (dec : ℕ → Text) where
  -- `waitForResponseSwSerial`.
  unfoldable pub wait_for_response_sw_serial :
      Hub Float → ℕ → ℕ → List (Option ℕ × ℕ) → Option (Hub Float)
  unfolding receive_polls handle_reception
  wait_for_response_sw_serial s time i polls =
      handle_reception dec s time i (receive_polls s.config.response_timeout polls no_reception)

  -- The request to a device: values, or metadata of a device without components.
  unfoldable pub request_sw_serial : Hub Float → ℕ → Hub Float
  unfolding print_raw
  request_sw_serial s i =
      let count : ℕ = elim (get_elem? s.devices i) [ none ↦ 0 | some d ↦ d.component_count ] in
      print_raw s i ((if count == 0 then codes "m" else codes "v") ++ crlf)

  -- The loop of `doPolling`, from the `i`-th device on; `answers` holds the polls of each line.
  unfoldable pub poll_from_sw_serial :
      Hub Float → ℕ → ℕ → List (List (Option ℕ × ℕ)) → Option (Hub Float)
  unfolding request_sw_serial wait_for_response_sw_serial
  poll_from_sw_serial s time i [] = some s
  poll_from_sw_serial s time i (polls ∷ answers) =
      elim (wait_for_response_sw_serial (request_sw_serial s i) time i polls) [
        | none ↦ none
        | some s' ↦ poll_from_sw_serial s' time (i + 1) answers
      ]

  -- `updateActuators` over the devices that are left, from the `i`-th on.
  unfoldable pub update_actuators_sw_serial :
      (Float → Text)
      → Hub Float
      → ℕ
      → ℕ
      → List (Text × Float)
      → List (List (Option ℕ × ℕ))
      → Option (Hub Float)
  unfolding apply_members output_parts print_raw wait_for_response_sw_serial
  update_actuators_sw_serial fixed s time i members [] = some s
  update_actuators_sw_serial fixed s time i members (polls ∷ answers) =
      let skipped = update_actuators_sw_serial fixed s time (i + 1) members answers in
      elim (get_elem? s.devices i) [
        | none ↦ skipped
        | some d ↦
            let (d', updated) = apply_members d members in
            let known : Hub Float = record s { devices = set s.devices i d' } in
            let unsent = update_actuators_sw_serial fixed known time (i + 1) members answers in
            let parts = output_parts fixed d'.components d'.component_count true in
            let told = print_raw known i (codes "s:" ++ join parts ++ crlf) in
            if d.component_count == 0
            then skipped
            else if updated
            then elim (wait_for_response_sw_serial told time i polls) [
              | none ↦ none
              | some s' ↦ update_actuators_sw_serial fixed s' time (i + 1) members answers
            ]
            else unsent
      ]
