-- ===== src/Hub/Loop/Builds.antt =====
-- The two builds of the hub, without and with USE_SWSERIAL.
use sensaurus.Prelude.{ℕ, List, Option, some, Text}
use sensaurus.CText.Number.{Printer}
use sensaurus.Hub.Receive.{wait_for_response, poll_from}
use sensaurus.Hub.Actuators.{update_actuators}
use sensaurus.Hub.SwSerial.{poll_from_sw_serial, update_actuators_sw_serial}
use sensaurus.Hub.Control.{Build}

-- `members` is what deserializeJson reads of a text, and `fixed` prints a float. The bytes that the
-- devices send are `answers` when polled, `reply` behind a message and `acks` behind new settings.
module _ {Float : Type 0} (p : Printer) (dec : ℕ → Text) (fixed : Float → Text)
    (members : Text → List (Text × Float)) (time : ℕ) where
  abbrev pub plain_build : List (List (ℕ × ℕ)) → List (ℕ × ℕ) → List (List (ℕ × ℕ)) → Build Float
  plain_build answers reply acks = record {
    do_polling = λ hub. poll_from dec p hub time 0 answers;
    after_message = λ hub i. wait_for_response dec hub time i reply;
    actuate = λ hub text. update_actuators p dec fixed hub time 0 (members text) acks;
  }

  abbrev pub sw_serial_build : List (List (Option ℕ × ℕ)) → List (List (Option ℕ × ℕ)) → Build Float
  sw_serial_build answers acks = record {
    do_polling = λ hub. poll_from_sw_serial dec hub time 0 answers;
    after_message = λ hub i. some hub;
    actuate = λ hub text. update_actuators_sw_serial dec fixed hub time 0 (members text) acks;
  }
