-- ===== src/Hub/Receive.antt =====
-- The hub waits for the answer of a device: `waitForResponse`, `doPolling`, and the check for
-- devices that no longer answer.
use sensaurus.Prelude.{
  ℕ, ◌+◌, ◌-◌, Bool, true, false, ◌&&◌, List, [], ◌∷◌, ◌++◌, Option, none, some, set, get_elem?,
  replicate, ltb, leb, ◌==◌, if◌then◌else◌, Text, codes,
}
use sensaurus.CText.{c_str}
use sensaurus.CText.Number.{Printer}
use sensaurus.CheckStream.{write_all, crlf}
use sensaurus.SensaurDevice.{
  Device, set_connected, no_response, responded, reset_error_count, reset_components,
}
use sensaurus.Hub.{
  Hub, Event, led, send_device_info, device_message_buf_len, with_device,
  process_message_from_device,
}

-- The buffer `deviceMessage`, its index, and whether a character beyond ASCII was received.
pub record Reception : Type 0 where
  pub message : List ℕ
  pub index : ℕ
  pub non_ascii : Bool

abbrev pub no_reception : Reception
no_reception = record { message = replicate device_message_buf_len 0; index = 0; non_ascii = false }

-- The loop over the bytes that `readByte` returns, each with the milliseconds since the start. The
-- loop ends at a control character, or once the time is over; no byte is left then.
unfoldable pub receive : ℕ → List (ℕ × ℕ) → Reception → Reception
receive timeout [] r = r
receive timeout ((c, elapsed) ∷ reads) r =
    let seen : Reception = if ltb 127 c then record r { non_ascii = true } else r in
    let stored : Reception =
      if ltb seen.index (device_message_buf_len - 1)
      then record seen { message = set seen.message seen.index c; index = seen.index + 1 }
      else seen in
    let rest = receive timeout reads stored in
    if ltb c 32 then seen else if ltb elapsed timeout then rest else stored

-- A device that answers while it counts as disconnected: it has no components until it sends
-- metadata.
abbrev pub reconnect : {Float : Type 0} → Device Float → Device Float
reconnect d = if d.connected then d else reset_components (responded (set_connected d true))

module _ {Float : Type 0} (dec : ℕ → Text) where
  -- What `waitForResponse` does behind its loop.
  unfoldable pub handle_reception : Hub Float → ℕ → ℕ → Reception → Option (Hub Float)
  handle_reception s time i r =
      let calm = if r.non_ascii then s else with_device s i reset_error_count in
      if r.index == 0
      then some (with_device calm i no_response)
      else (let known = with_device calm i reconnect in
          let message = c_str (set r.message r.index 0) in
          elim (process_message_from_device dec known time i message) [
            | none ↦ none
            | some s' ↦ some (with_device s' i responded)
          ])

  unfoldable pub wait_for_response : Hub Float → ℕ → ℕ → List (ℕ × ℕ) → Option (Hub Float)
  unfolding receive handle_reception
  wait_for_response s time i reads =
      handle_reception s time i (receive s.config.response_timeout reads no_reception)

  -- The request to a device: values, or metadata of a device without components.
  unfoldable pub request : Printer → Hub Float → ℕ → Hub Float
  request p s i =
      let count : ℕ = elim (get_elem? s.devices i) [ none ↦ 0 | some d ↦ d.component_count ] in
      elim (get_elem? s.dev_stream i) [
        | none ↦ s
        | some out ↦ record s {
          dev_stream =
              set s.dev_stream i
                (write_all p false out ((if count == 0 then codes "m" else codes "v") ++ crlf));
        }
      ]

  -- The loop of `doPolling` over the devices that are left, from the `i`-th on. `answers` holds the
  -- bytes that each device sends.
  unfoldable pub poll_from : Printer → Hub Float → ℕ → ℕ → List (List (ℕ × ℕ)) → Option (Hub Float)
  unfolding request wait_for_response
  poll_from p s time i [] = some s
  poll_from p s time i (reads ∷ answers) = elim (wait_for_response (request p s i) time i reads) [
    | none ↦ none
    | some s' ↦ poll_from p s' time (i + 1) answers
  ]

-- The loop that looks for devices that are gone, over the devices from the `i`-th on.
unfoldable pub drop_silent :
    {Float : Type 0} → ℕ → List (Device Float) → List (Device Float) × List Event
drop_silent i [] = ([], [])
drop_silent i (d ∷ ds) =
    let (others, events) = drop_silent (i + 1) ds in
    if d.connected && leb 2 d.no_response_count
    then (
      reset_components (set_connected d false) ∷ others,
      led i false ∷ send_device_info ∷ events,
    )
    else (d ∷ others, events)
