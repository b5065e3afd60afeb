-- ===== src/Hub/Control/Tests.antt =====
-- Commands at concrete inputs.
use sensaurus.Prelude.{ℕ, ◌≡◌, refl, arith, List, [], ◌∷◌, ◌++◌, some, take, Text, codes}
use sensaurus.CText.{text_eq}
use sensaurus.CText.Hex.{arduino_printer}
use sensaurus.ProcessingQueue.Sample.{list_fifo}
use sensaurus.Hub.Control.{
  no_doc, Build, command_of, set_poll, to_device, ble_exit, run_command, poll_interval_of,
  clip_level, type_bytes,
}
use sensaurus.Hub.Control.Console.{typing, line_done, type_bytes_line}
use sensaurus.Hub.Sample.{fresh_control}

-- A build whose devices answer nothing.
abbrev silent_build : Build ℕ
silent_build = record {
  do_polling = λ hub. some hub;
  after_message = λ hub i. some hub;
  actuate = λ hub text. some hub;
}

abbrev no_dec : ℕ → Text
no_dec n = codes "0"

names_read :
    (command_of (codes "set_poll_interval") ≡ set_poll)
    × (command_of (codes "2>v") ≡ to_device b'2' (codes "v"))
    × (command_of (codes "bleExit") ≡ ble_exit)
unfolding command_of text_eq
names_read = (refl, refl, refl)

intervals :
    (poll_interval_of 0 ≡ 500) × (poll_interval_of 5 ≡ 5000) × (poll_interval_of 4294967295 ≡ 500)
unfolding poll_interval_of
intervals = (refl, refl, refl)

levels : (clip_level 9 ≡ 5) × (clip_level 4294967295 ≡ 0) × (clip_level 3 ≡ 3)
unfolding clip_level
levels = (refl, refl, refl)

type_bytes_line_example :
    (message : List ℕ) × (index : ℕ) × (type_bytes list_fifo arduino_printer no_dec silent_build
        fresh_control
        (codes "bleExit" ++ 13 ∷ [])
      ≡ line_done list_fifo arduino_printer no_dec silent_build (
          run_command list_fifo arduino_printer no_dec silent_build
            (typing list_fifo arduino_printer no_dec silent_build fresh_control message index)
            (take 39 (codes "bleExit"))
            no_doc))
type_bytes_line_example =
    type_bytes_line list_fifo arduino_printer no_dec silent_build fresh_control (codes "bleExit")
      (omega arith) (omega arith) refl refl
