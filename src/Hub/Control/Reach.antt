-- ===== src/Hub/Control/Reach.antt =====
-- What holds of the hub's globals whatever comes from the console and from the server.
use sensaurus.Prelude.{
  ℕ, ◌^◌, ◌<◌, ◌≤◌, ◌≡◌, ◌∙◌, arith, List, Option, some, set, length, length-set, Option-cases, inl,
  inr, Text,
}
use sensaurus.CText.{c_str}
use sensaurus.CText.Number.{Printer}
use sensaurus.ProcessingQueue.{QueueItem, Fifo}
use sensaurus.Hub.Control.{
  Control, Doc, no_doc, Build, Command, set_poll, to_device, command_of, poll_interval_of,
  message_device, run, run_command, process_byte_from_computer, handle_incoming_message,
}

-- The devices are polled at intervals of half a second at least, which fit a signed 32-bit number,
-- and the console's buffer keeps its size and has room for a NUL.
pub record IsSound {Float Queue : Type 0} (s : Control Float Queue) : Type 0 where
  pub slow : 500 ≤ s.poll_interval
  pub fits : s.poll_interval < 2 ^ 31
  pub console_size : length s.console_message ≡ 40
  pub console_index : s.console_message_index ≤ 39

poll_interval_of_bounds : (n : ℕ) → (500 ≤ poll_interval_of n) × (poll_interval_of n < 2 ^ 31)
unfolding poll_interval_of
poll_interval_of_bounds n = ground arith

module _ {Float : Type 0} (f : Fifo QueueItem) (p : Printer) (dec : ℕ → Text) where
  message_device-IsSound :
      (build : Build Float) (s t : Control Float f.Queue) (first : ℕ) (text : Text)
      → IsSound s
      → message_device f p dec build s first text ≡ some t
      → IsSound t
  unfolding message_device
  message_device-IsSound build s t first text h e = ground arith

  run-IsSound :
      (build : Build Float) (s t : Control Float f.Queue) (c : Command) (doc : Doc)
      → IsSound s
      → run f p dec build s c doc ≡ some t
      → IsSound t
  unfolding run
  run-IsSound build s t set_poll doc h e = ground (arith, poll_interval_of_bounds doc.poll_seconds)
  run-IsSound build s t (to_device first text) doc h e =
      message_device-IsSound build s t first text h e
  run-IsSound build s t _ doc h e = ground arith

  run_command-IsSound :
      (build : Build Float) (s t : Control Float f.Queue) (text : Text) (doc : Doc)
      → IsSound s
      → run_command f p dec build s text doc ≡ some t
      → IsSound t
  unfolding run_command
  run_command-IsSound build s t text doc h e = run-IsSound build s t (command_of text) doc h e

  pub process_byte-IsSound :
      (build : Build Float) (s t : Control Float f.Queue) (c : ℕ)
      → IsSound s
      → process_byte_from_computer f p dec build s c ≡ some t
      → IsSound t
  unfolding process_byte_from_computer
  process_byte-IsSound build s t c h e =
      let message = set s.console_message s.console_message_index 0 in
      let ended : Control Float f.Queue = record s { console_message = message } in
      let ended-IsSound : IsSound ended = record {
        slow = h.slow;
        fits = h.fits;
        console_size = length-set s.console_message s.console_message_index 0 ∙ h.console_size;
        console_index = h.console_index;
      } in
      elim (Option-cases (run_command f p dec build ended (c_str message) no_doc)) [
        | inl fault ↦
            ground (arith, fault, h.slow, length-set s.console_message s.console_message_index c)
        | inr (u, ran) ↦
            let u-IsSound =
              run_command-IsSound build ended u (c_str message) no_doc ended-IsSound ran in
            ground
              (arith, ran, u-IsSound.slow, length-set s.console_message s.console_message_index c)
      ]

  pub handle_incoming-IsSound :
      (build : Build Float) (read : Text → Option Text × Doc) (s t : Control Float f.Queue)
      (payload : List ℕ)
      → IsSound s
      → handle_incoming_message f p dec build read s payload ≡ some t
      → IsSound t
  unfolding handle_incoming_message
  handle_incoming-IsSound build read s t payload h e =
      elim (Option-cases (read (c_str payload)).0) [
        | inl none_there ↦ ground (arith, none_there)
        | inr (name, there) ↦
            elim (Option-cases (run_command f p dec build s name (read (c_str payload)).1)) [
              | inl fault ↦ absurd (ground (arith, there, fault))
              | inr (u, ran) ↦
                  let u-IsSound =
                    run_command-IsSound build s u name (read (c_str payload)).1 h ran in
                  ground (arith, there, ran, u-IsSound.slow)
            ]
      ]

  -- What may come: a byte at the console, or a message of the server, whatever the build answers.
  pub data Input : Control Float f.Queue → Control Float f.Queue → Type 0 where
    typed :
        (s t : Control Float f.Queue) (build : Build Float) (c : ℕ)
        → process_byte_from_computer f p dec build s c ≡ some t
        → Input s t
    received :
        (s t : Control Float f.Queue) (build : Build Float) (read : Text → Option Text × Doc)
        (payload : List ℕ)
        → handle_incoming_message f p dec build read s payload ≡ some t
        → Input s t

  pub data Inputs (s : Control Float f.Queue) : Control Float f.Queue → Type 0 where
    here : Inputs s s
    next : {t u : Control Float f.Queue} → Inputs s t → Input t u → Inputs s u

  -- Whatever comes from the console and from the server, in whatever order, the interval of polling
  -- stays between half a second and 2 ^ 31 milliseconds, and the console's index within its buffer,
  -- if they were so at the start.
  pub Inputs-IsSound : {s t : Control Float f.Queue} → IsSound s → Inputs s t → IsSound t
  Inputs-IsSound h here = h
  Inputs-IsSound h (next inputs (typed s t build c e)) =
      process_byte-IsSound build s t c (Inputs-IsSound h inputs) e
  Inputs-IsSound h (next inputs (received s t build read payload e)) =
      handle_incoming-IsSound build read s t payload (Inputs-IsSound h inputs) e
