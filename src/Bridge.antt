-- ===== src/Bridge.antt =====
-- hub-bridge/hub-bridge.ino: an Arduino that passes messages between a computer and the devices.
-- `none` is an access to a device outside the arrays. The third-party serial lines are what they
-- deliver: a list of the bytes that are available. Switching the line that is listened to drops
-- what was not read of another line.
pub mod Bounds
pub mod Forward
mod Tests
use sensaurus.Prelude.{
  ℕ, zero, suc, ◌+◌, ◌-◌, ◌<◌, Bool, true, false, ◌&&◌, ◌||◌, List, [], ◌∷◌, ◌++◌, Option, none,
  some, set, get_or, get_elem?, drop, length, ltb, leb, ◌==◌, if◌then◌else◌, Text, codes, u32, ◌%◌,
  ◌^◌,
}
use sensaurus.CText.{c_str}
use sensaurus.CText.Number.{Printer}
use sensaurus.CheckStream.{CheckStream, write_all, crlf}
use sensaurus.Sensaur.{avr, checksum_ok}

abbrev pub max_device_count : ℕ
max_device_count = 5

abbrev pub hub_message_buf_len : ℕ
hub_message_buf_len = 20

abbrev pub device_message_buf_len : ℕ
device_message_buf_len = 80

abbrev pub poll_interval : ℕ
poll_interval = 1000

-- The globals; `listen_device` is `none` for -1.
pub record Bridge : Type 0 where
  pub dev_stream : List CheckStream
  pub hub_message : List ℕ
  pub hub_message_index : ℕ
  pub device_message : List ℕ
  pub device_message_index : ℕ
  pub listen_device : Option ℕ
  pub hub_stream : CheckStream
  pub repeat_polling : Bool
  pub last_poll_time : ℕ

module _ (p : Printer) (dec : ℕ → Text) where
  -- `forwardMessageFromDevice`: `checksumOk` cuts the message off in its buffer.
  unfoldable pub forward_message_from_device : Bridge → ℕ → Bridge
  forward_message_from_device s i =
      let (good, text) = checksum_ok avr (c_str s.device_message) true in
      let say = write_all p false in
      record s {
        device_message = set s.device_message (length text) 0;
        hub_stream =
            if good
            then say (say (say s.hub_stream (dec i)) (codes ">")) (text ++ crlf)
            else say s.hub_stream (codes "e:device crc");
      }

  -- `processDeviceMessage`: whether a line ended, and the bytes that are left.
  unfoldable pub process_device_message : Bridge → ℕ → List ℕ → Bool × List ℕ × Bridge
  unfolding forward_message_from_device
  process_device_message s i [] = (false, [], s)
  process_device_message s i (c ∷ cs) =
      let stored : Bridge = record s {
        device_message = set s.device_message s.device_message_index c;
        device_message_index =
            if ltb s.device_message_index (device_message_buf_len - 1)
            then s.device_message_index + 1
            else s.device_message_index;
      } in
      let ended : Bridge =
        if s.device_message_index == 0
        then s
        else forward_message_from_device
            (record s { device_message = set s.device_message s.device_message_index 0 }) i in
      let later = process_device_message stored i cs in
      if c == 10 || c == 13 then (true, cs, record ended { device_message_index = 0 }) else later

  -- The loop that waits for the reply of a device: each round has the bytes that are available and
  -- the milliseconds since the start behind it.
  unfoldable pub wait_for_reply : Bridge → ℕ → List (List ℕ × ℕ) → Bridge
  unfolding process_device_message
  wait_for_reply s i [] = s
  wait_for_reply s i ((bytes, elapsed) ∷ rounds) =
      let (ended, left, s') = process_device_message s i bytes in
      let later = wait_for_reply s' i rounds in
      if ended then s' else if ltb elapsed 50 then later else s'

  -- `devStream[i].println(text)`.
  unfoldable pub send_to_device : Bridge → ℕ → Text → Option Bridge
  send_to_device s i text = elim (get_elem? s.dev_stream i) [
    | none ↦ none
    | some out ↦
        some (record s { dev_stream = set s.dev_stream i (write_all p false out (text ++ crlf)) })
  ]

  -- The loop of `doPolling` over the `n` devices that are left, from the `i`-th on; `replies` has the
  -- rounds of each device.
  unfoldable pub poll_devices : Bridge → ℕ → ℕ → ℕ → (ℕ → List (List ℕ × ℕ)) → Option Bridge
  unfolding wait_for_reply send_to_device
  poll_devices s ch zero i replies = some s
  poll_devices s ch (suc n) i replies =
      elim (send_to_device (record s { device_message_index = 0 }) i (ch ∷ [])) [
        | none ↦ none
        | some s' ↦ poll_devices (wait_for_reply s' i (replies i)) ch n (i + 1) replies
      ]

  -- The commands of one letter; `replies` is what the devices answer to a polling.
  unfoldable pub run_letter : Bridge → ℕ → (ℕ → List (List ℕ × ℕ)) → Option Bridge
  unfolding poll_devices
  run_letter s first replies =
      if first == b'p'
      then poll_devices s b'v' max_device_count 0 replies
      else if first == b'm'
      then poll_devices s b'm' max_device_count 0 replies
      else if first == b'r'
      then some (record s { repeat_polling = true })
      else some s

  -- A message for a device, of the form "0>text".
  unfoldable pub address_device : Bridge → List ℕ → Option Bridge
  unfolding send_to_device
  address_device s message =
      let first = get_or message 0 0 in
      if ltb 2 s.hub_message_index && get_or message 1 0 == b'>'
      then (let listening : Bridge = record s {
        listen_device = some (first - b'0');
        device_message_index = 0;
      } in
          if leb b'0' first
          then send_to_device listening (first - b'0') (c_str (drop 2 message))
          else none)
      else some s

  -- A line from the computer is complete.
  unfoldable pub run_hub_message : Bridge → (ℕ → List (List ℕ × ℕ)) → Option Bridge
  unfolding run_letter address_device
  run_hub_message s replies =
      let message = set s.hub_message s.hub_message_index 0 in
      elim (run_letter (record s { hub_message = message }) (get_or message 0 0) replies) [
        | none ↦ none
        | some s' ↦ address_device s' message
      ]

  -- `processByteFromComputer`, without REQUIRE_CHECKSUM_FROM_HUB_COMPUTER.
  unfoldable pub process_byte_from_computer : Bridge → ℕ → (ℕ → List (List ℕ × ℕ)) → Option Bridge
  unfolding run_hub_message
  process_byte_from_computer s c replies =
      if c == 10 || c == 13
      then (if s.hub_message_index == 0 then some s else elim (run_hub_message s replies) [
        | none ↦ none
        | some s' ↦ some (record s' { hub_message_index = 0 })
      ])
      else if ltb s.hub_message_index (hub_message_buf_len - 1)
      then some (record s {
        hub_message = set s.hub_message s.hub_message_index c;
        hub_message_index = s.hub_message_index + 1;
      })
      else some s

  -- The loop over the bytes of the computer, each with what the devices answer meanwhile.
  unfoldable pub process_computer : Bridge → List (ℕ × (ℕ → List (List ℕ × ℕ))) → Option Bridge
  unfolding process_byte_from_computer
  process_computer s [] = some s
  process_computer s ((c, replies) ∷ bytes) = elim (process_byte_from_computer s c replies) [
    | none ↦ none
    | some s' ↦ process_computer s' bytes
  ]

  -- The loop over the bytes of the device that is listened to. Each round takes one byte at least,
  -- so that `fuel`, the number of bytes, is enough.
  unfoldable pub drain_device : ℕ → Bridge → ℕ → List ℕ → Bridge
  drain_device zero s i bytes = s
  drain_device (suc fuel) s i bytes =
      let (ended, left, s') = process_device_message s i bytes in
      let later = drain_device fuel s' i left in if length bytes == 0 then s else later

  -- `loop` at the time `time` of `millis`, of 32 bits.
  unfoldable pub bridge_loop :
      Bridge
      → ℕ
      → List (ℕ × (ℕ → List (List ℕ × ℕ)))
      → List ℕ
      → (ℕ → List (List ℕ × ℕ))
      → Option Bridge
  unfolding process_computer drain_device poll_devices
  bridge_loop s time from_computer from_device replies = elim (process_computer s from_computer) [
    | none ↦ none
    | some s' ↦
        let drained : Bridge = elim s'.listen_device [
          | none ↦ s'
          | some i ↦ drain_device (length from_device) s' i from_device
        ] in
        if drained.repeat_polling && ltb 1000 (u32 (time + 2 ^ 32 - drained.last_poll_time))
        then elim (poll_devices drained b'v' max_device_count 0 replies) [
          | none ↦ none
          | some s'' ↦ some (record s'' { last_poll_time = time })
        ]
        else some drained
  ]
