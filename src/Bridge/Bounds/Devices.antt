-- ===== src/Bridge/Bounds/Devices.antt =====
-- The lines to and from the devices stay within the bridge's buffers.
use sensaurus.Prelude.{
  ℕ, zero, suc, ◌+◌, ◌<◌, ◌≤◌, ◌≡◌, refl, ◌∙◌, arith, Bool, false, ◌&&◌, ◌||◌, List, [], ◌∷◌, ◌++◌,
  some, set, get_or, get_elem?, length, length-set, ltb, ◌==◌, if◌then◌else◌, Bool-cases, inl, inr,
  Text,
}
use sensaurus.CText.Number.{Printer}
use sensaurus.CheckStream.{write_all, crlf}
use sensaurus.Bridge.{
  Bridge, forward_message_from_device, process_device_message, wait_for_reply, send_to_device,
  poll_devices,
}

pub record IsBounded (s : Bridge) : Type 0 where
  pub streams : length s.dev_stream ≡ 5
  pub hub_size : length s.hub_message ≡ 20
  pub hub_index : s.hub_message_index ≤ 19
  pub device_size : length s.device_message ≡ 80
  pub device_index : s.device_message_index ≤ 79

get_elem?_inside :
    {A : Type 0} (xs : List A) (i : ℕ) → i < length xs → (x : A) × (get_elem? xs i ≡ some x)
get_elem?_inside [] i h = absurd (omega arith)
get_elem?_inside (x ∷ xs) zero h = (x, refl)
get_elem?_inside (x ∷ xs) (suc i) h = get_elem?_inside xs i (omega arith)

-- A message is addressed to a device that the bridge does not have.
abbrev pub names_no_device : List ℕ → Bool
names_no_device message =
    get_or message 1 0 == b'>' && (ltb (get_or message 0 0) b'0' || ltb b'4' (get_or message 0 0))

module _ (p : Printer) (dec : ℕ → Text) where
  forward-IsBounded :
      (s : Bridge) (i : ℕ) → IsBounded s → IsBounded (forward_message_from_device p dec s i)
  unfolding forward_message_from_device
  forward-IsBounded s i b = record {
    streams = b.streams;
    hub_size = b.hub_size;
    hub_index = b.hub_index;
    device_size = length-set s.device_message _ 0 ∙ b.device_size;
    device_index = b.device_index;
  }

  reset-IsBounded : (s : Bridge) → IsBounded s → IsBounded (record s { device_message_index = 0 })
  reset-IsBounded s b = record {
    streams = b.streams;
    hub_size = b.hub_size;
    hub_index = b.hub_index;
    device_size = b.device_size;
    device_index = omega arith;
  }

  process_device_message-IsBounded :
      (i : ℕ) (bytes : List ℕ) (s : Bridge)
      → IsBounded s
      → IsBounded (process_device_message p dec s i bytes).2
  unfolding process_device_message
  process_device_message-IsBounded i [] s b = b
  process_device_message-IsBounded i (c ∷ cs) s b =
      let next =
        if ltb s.device_message_index 79
        then s.device_message_index + 1
        else s.device_message_index in
      let stored : IsBounded (record s {
        device_message = set s.device_message s.device_message_index c;
        device_message_index = next;
      }) =
        record {
          streams = b.streams;
          hub_size = b.hub_size;
          hub_index = b.hub_index;
          device_size = length-set s.device_message s.device_message_index c ∙ b.device_size;
          device_index = ground (arith, b.device_index);
        } in
      let closed : IsBounded
          (record s { device_message = set s.device_message s.device_message_index 0 }) =
        record {
          streams = b.streams;
          hub_size = b.hub_size;
          hub_index = b.hub_index;
          device_size = length-set s.device_message s.device_message_index 0 ∙ b.device_size;
          device_index = b.device_index;
        } in
      let forwarded = forward-IsBounded _ i closed in
      elim (Bool-cases (c == 10 || c == 13)) [
        | inr char ↦
            rw (process_device_message, char) (process_device_message-IsBounded i cs _ stored)
        | inl line_end ↦ elim (Bool-cases (s.device_message_index == 0)) [
          | inl empty ↦ rw (process_device_message, line_end, empty) (reset-IsBounded s b)
          | inr text ↦ rw (process_device_message, line_end, text) (reset-IsBounded _ forwarded)
        ]
      ]

  wait_for_reply-IsBounded :
      (i : ℕ) (rounds : List (List ℕ × ℕ)) (s : Bridge)
      → IsBounded s
      → IsBounded (wait_for_reply p dec s i rounds)
  unfolding wait_for_reply
  wait_for_reply-IsBounded i [] s b = b
  wait_for_reply-IsBounded i ((bytes, elapsed) ∷ rounds) s b =
      let read = process_device_message-IsBounded i bytes s b in
      elim (Bool-cases (process_device_message p dec s i bytes).0) [
        | inl ended ↦ rw (wait_for_reply, ended) read
        | inr open_line ↦ elim (Bool-cases (ltb elapsed 50)) [
          | inl in_time ↦
              rw (wait_for_reply, open_line, in_time) (wait_for_reply-IsBounded i rounds _ read)
          | inr over ↦ rw (wait_for_reply, open_line, over) read
        ]
      ]

  pub send-IsBounded :
      (s : Bridge) (i : ℕ) (text : Text)
      → i < 5
      → IsBounded s
      → (s' : Bridge) × (send_to_device p dec s i text ≡ some s') × IsBounded s'
  unfolding send_to_device
  send-IsBounded s i text h b =
      let (out, found) = get_elem?_inside s.dev_stream i (omega (arith, b.streams)) in
      (
        record s { dev_stream = set s.dev_stream i (write_all p false out (text ++ crlf)) },
        rw (send_to_device, found),
        record {
          streams = length-set s.dev_stream i _ ∙ b.streams;
          hub_size = b.hub_size;
          hub_index = b.hub_index;
          device_size = b.device_size;
          device_index = b.device_index;
        },
      )

  pub poll_devices-IsBounded :
      (ch n i : ℕ) (replies : ℕ → List (List ℕ × ℕ)) (s : Bridge)
      → i + n ≤ 5
      → IsBounded s
      → (s' : Bridge) × (poll_devices p dec s ch n i replies ≡ some s') × IsBounded s'
  unfolding poll_devices
  poll_devices-IsBounded ch zero i replies s room b = (s, refl, b)
  poll_devices-IsBounded ch (suc n) i replies s room b =
      let (sent, done, b') =
        send-IsBounded (record s { device_message_index = 0 }) i (ch ∷ []) (omega arith)
          (reset-IsBounded s b) in
      let (s', polled, b'') =
        poll_devices-IsBounded ch n (i + 1) replies (wait_for_reply p dec sent i (replies i))
          (omega arith) (wait_for_reply-IsBounded i (replies i) sent b') in
      (s', rw (poll_devices, done) polled, b'')
