-- ===== src/Bridge/Bounds.antt =====
-- The bridge stays within its buffers and its devices.
mod Devices
pub use Devices.{IsBounded, names_no_device}
use Devices.{send-IsBounded, poll_devices-IsBounded}
use sensaurus.Prelude.{
  ℕ, zero, suc, ◌+◌, ◌-◌, ◌<◌, ◌≤◌, ◌≡◌, refl, ◌∙◌, arith, Bool, true, false, ◌&&◌, ◌||◌, List, [],
  ◌∷◌, ◌++◌, some, set, get_or, get_elem?, drop, length, length-set, ltb, leb, ◌==◌, if◌then◌else◌,
  Bool-cases, ◌⊎◌, inl, inr, Text,
}
use sensaurus.CText.{c_str}
use sensaurus.CText.Number.{Printer}
use sensaurus.CheckStream.{write_all, crlf}
use sensaurus.Bridge.{
  max_device_count, Bridge, forward_message_from_device, process_device_message, wait_for_reply,
  send_to_device, poll_devices, run_letter, address_device, run_hub_message,
  process_byte_from_computer,
}

module _ (p : Printer) (dec : ℕ → Text) where
  run_letter-IsBounded :
      (s : Bridge) (first : ℕ) (replies : (ℕ → List (List ℕ × ℕ)))
      → IsBounded s
      → (s' : Bridge) × (run_letter p dec s first replies ≡ some s') × IsBounded s'
  unfolding run_letter
  run_letter-IsBounded s first replies b = elim (Bool-cases (first == b'p')) [
    | inl poll ↦
        rw (run_letter, poll)
          (poll_devices-IsBounded p dec b'v' max_device_count 0 replies s (omega arith) b)
    | inr other ↦ elim (Bool-cases (first == b'm')) [
      | inl describe ↦
          rw (run_letter, other, describe)
            (poll_devices-IsBounded p dec b'm' max_device_count 0 replies s (omega arith) b)
      | inr last ↦ elim (Bool-cases (first == b'r')) [
        | inl repeat ↦
            rw (run_letter, other, last, repeat)
              (
                record s { repeat_polling = true },
                refl,
                record {
                  streams = b.streams;
                  hub_size = b.hub_size;
                  hub_index = b.hub_index;
                  device_size = b.device_size;
                  device_index = b.device_index;
                },
              )
        | inr text ↦ rw (run_letter, other, last, text) (s, refl, b)
      ]
    ]
  ]

  address_device-IsBounded :
      (s : Bridge) (message : List ℕ)
      → IsBounded s
      → ((s' : Bridge) × (address_device p dec s message ≡ some s') × IsBounded s')
        ⊎ (names_no_device message ≡ true)
  unfolding address_device
  address_device-IsBounded s message b =
      let first = get_or message 0 0 in
      elim (Bool-cases (ltb 2 s.hub_message_index && get_or message 1 0 == b'>')) [
        | inr plain ↦ inl (rw (address_device, plain) (s, refl, b))
        | inl addressed ↦
            let mark : (get_or message 1 0 == b'>') ≡ true = ground arith in
            elim (Bool-cases (ltb first b'0' || ltb b'4' first)) [
              | inl outside ↦ inr (rw (mark, outside))
              | inr inside ↦
                  let low : leb b'0' first ≡ true = ground arith in
                  inl (
                    rw (address_device, addressed, low)
                      (send-IsBounded p dec
                        (record s { listen_device = some (first - b'0'); device_message_index = 0 })
                        (first - b'0') (c_str (drop 2 message)) (ground arith)
                        (record {
                          streams = b.streams;
                          hub_size = b.hub_size;
                          hub_index = b.hub_index;
                          device_size = b.device_size;
                          device_index = omega arith;
                        })))
            ]
      ]

  -- At every byte from the computer, whatever the devices answer meanwhile, a bridge within
  -- its buffers and its devices goes on and stays within them, unless the line that has come in
  -- names, in front of a '>', a device that the bridge does not have.
  pub process_byte_from_computer-IsBounded :
      (s : Bridge) (c : ℕ) (replies : (ℕ → List (List ℕ × ℕ)))
      → IsBounded s
      → ((s' : Bridge) × (process_byte_from_computer p dec s c replies ≡ some s') × IsBounded s')
        ⊎ (names_no_device (set s.hub_message s.hub_message_index 0) ≡ true)
  unfolding process_byte_from_computer run_hub_message
  process_byte_from_computer-IsBounded s c replies b = elim (Bool-cases (c == 10 || c == 13)) [
    | inr char ↦ elim (Bool-cases (ltb s.hub_message_index 19)) [
      | inl short ↦ inl (
          rw (process_byte_from_computer, char, short)
            (
              _,
              refl,
              record {
                streams = b.streams;
                hub_size = length-set s.hub_message s.hub_message_index c ∙ b.hub_size;
                hub_index = ground arith;
                device_size = b.device_size;
                device_index = b.device_index;
              },
            ))
      | inr full ↦ inl (rw (process_byte_from_computer, char, full) (s, refl, b))
    ]
    | inl line_end ↦ elim (Bool-cases (s.hub_message_index == 0)) [
      | inl empty ↦ inl (rw (process_byte_from_computer, line_end, empty) (s, refl, b))
      | inr text ↦
          let message = set s.hub_message s.hub_message_index 0 in
          let closed : IsBounded (record s { hub_message = message }) = record {
            streams = b.streams;
            hub_size = length-set s.hub_message s.hub_message_index 0 ∙ b.hub_size;
            hub_index = b.hub_index;
            device_size = b.device_size;
            device_index = b.device_index;
          } in
          let (s', ran, b') =
            run_letter-IsBounded (record s { hub_message = message }) (get_or message 0 0) replies
              closed in
          elim (address_device-IsBounded s' message b') [
            | inr nobody ↦ inr nobody
            | inl (s'', sent, b'') ↦ inl (
              record s'' { hub_message_index = 0 },
              rw (process_byte_from_computer, line_end, text, run_hub_message, ran, sent),
              record {
                streams = b''.streams;
                hub_size = b''.hub_size;
                hub_index = omega arith;
                device_size = b''.device_size;
                device_index = b''.device_index;
              },
            )
          ]
    ]
  ]
