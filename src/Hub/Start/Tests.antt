-- ===== src/Hub/Start/Tests.antt =====
-- Starts at concrete inputs.
use sensaurus.Prelude.{
  ℕ, ◌≡◌, ◌<◌, ◌+◌, ◌^◌, refl, arith, true, false, [], ◌∷◌, Option, some, none, Text, codes, ◌==◌,
}
use sensaurus.CText.{c_str, strcpy}
use sensaurus.CText.Hex.{arduino_printer}
use sensaurus.Config.{Config, Settings}
use sensaurus.Config.Sample.{sample_settings, blank_config}
use sensaurus.ProcessingQueue.Sample.{list_fifo}
use sensaurus.Hub.Network.{sta_got_ip}
use sensaurus.Hub.Control.{Control, no_doc, process_byte_from_computer}
use sensaurus.Hub.Loop.{Pass, take_input, poll_devices, loop_pass}
use sensaurus.Hub.Sample.{fresh_control}
use sensaurus.Hub.Network.{has_ble, aws_no_ble, aws_ble, mqtt_ble, Flavor}
use sensaurus.Hub.Start.{Started, ready, ble_mode_on, frozen, Boot, setup}
use sensaurus.Hub.Start.Button.{button_starts_ble}
use sensaurus.Hub.Start.Runs.{Runs}

abbrev stored_config : Config
stored_config = record blank_config { version = 3; wifi_enabled = true }

-- WiFi connects at the second try, and the time server answers at the third.
abbrev first_boot : Boot
first_boot = record {
  software_reset = false;
  kept_mode = 1;
  stored = stored_config;
  button_low = false;
  begins = λ k. k == 1;
  statuses = λ k. k == 3;
  patience = 10;
  wifi_events = (900, sta_got_ip) ∷ [];
  updates = λ k. k == 2;
  update_end = 1500;
  epoch = 1570000000;
  answers = record {
    connected = λ k. false;
    wifi_status = λ k. true;
    connect = λ k. true;
    subscribe_command = true;
    subscribe_actuators = true;
  };
  fail_time = 2000;
}

abbrev no_dec : ℕ → Text
no_dec n = codes "0"

-- How a start ends.
abbrev ending : Flavor → Boot → Option Started
ending flavor e = elim (setup {Float = ℕ} list_fifo no_dec flavor 0 sample_settings e) [
  | none ↦ none
  | some (how, s) ↦ some how
]

endings :
    (ending aws_no_ble first_boot ≡ some ready)
    × (ending aws_no_ble (record first_boot { begins = λ k. k == 4 }) ≡ some (frozen 1))
    × (ending mqtt_ble (record first_boot { updates = λ k. k == 11 }) ≡ some (frozen 2))
    × (ending aws_ble (record first_boot { software_reset = true }) ≡ some ble_mode_on)
    × (ending aws_no_ble (record first_boot { software_reset = true }) ≡ some ready)
unfolding setup strcpy c_str
endings = (refl, refl, refl, refl, refl)

-- The globals behind the first start.
abbrev started_once : Control ℕ list_fifo.Queue
started_once = elim (setup {Float = ℕ} list_fifo no_dec aws_ble 0 sample_settings first_boot) [
  | none ↦ fresh_control
  | some (how, s) ↦ s
]

-- A pass of `loop` in which `s` is typed.
abbrev quiet_pass : Pass ℕ
quiet_pass = record {
  build = record {
    do_polling = λ hub. some hub;
    after_message = λ hub i. some hub;
    actuate = λ hub text. some hub;
  };
  sight = record {
    client_connected = true;
    state_connected = true;
    wifi_up = true;
    dns_up = true;
    time = 2100;
    dns_time = 2100;
    end_time = 2100;
    answers = first_boot.answers;
  };
  typed = b's' ∷ [];
  poll_time = 2100;
  time = 2101;
  button_low = false;
  blink_time = 2102;
  updates = λ k. true;
  update_end = 2103;
  epoch = 1570000001;
  messages = codes "{}" ∷ [];
  deserialize = λ text. (none, no_doc);
}

-- The globals behind that pass.
abbrev passed_once : Control ℕ list_fifo.Queue
passed_once = elim (loop_pass list_fifo no_dec arduino_printer aws_ble quiet_pass started_once) [
  | none ↦ fresh_control
  | some (restarted, s) ↦ s
]

polled_once : (passed_once.last_poll_time ≡ 2100) × (passed_once.console_message_index ≡ 1)
unfolding setup loop_pass process_byte_from_computer strcpy c_str
polled_once = (refl, refl)

-- The same pass with the button pressed.
abbrev pressed_pass : Pass ℕ
pressed_pass = record quiet_pass { button_low = true }

abbrev or_fresh : Option (Control ℕ list_fifo.Queue) → Control ℕ list_fifo.Queue
or_fresh none = fresh_control
or_fresh (some s) = s

abbrev heard_once : Control ℕ list_fifo.Queue
heard_once =
    or_fresh (take_input list_fifo no_dec arduino_printer aws_ble pressed_pass started_once)

abbrev polled_twice : Control ℕ list_fifo.Queue
polled_twice =
    or_fresh (poll_devices list_fifo no_dec pressed_pass.build pressed_pass.poll_time heard_once)

heard :
    take_input list_fifo no_dec arduino_printer aws_ble pressed_pass started_once ≡ some heard_once
unfolding setup take_input process_byte_from_computer strcpy c_str
heard = refl

polled :
    poll_devices list_fifo no_dec pressed_pass.build pressed_pass.poll_time heard_once
    ≡ some polled_twice
unfolding setup take_input poll_devices process_byte_from_computer strcpy c_str
polled = refl

not_asked : heard_once.sw_reboot ≡ 0
unfolding setup take_input process_byte_from_computer strcpy c_str
not_asked = refl

not_configured : polled_twice.config_mode ≡ false
unfolding setup take_input poll_devices process_byte_from_computer strcpy c_str
not_configured = refl

not_great : polled_twice.ble_mode + 1 < 2 ^ 31
unfolding setup take_input poll_devices process_byte_from_computer strcpy c_str
not_great = omega arith

has_aws_ble : has_ble aws_ble ≡ true
unfolding has_ble
has_aws_ble = refl

button_starts_ble_example :
    (t : Control ℕ list_fifo.Queue) × (loop_pass list_fifo no_dec arduino_printer aws_ble
        pressed_pass started_once
      ≡ some (true, t))
    × ((zero_value : ℕ) (d : Settings) (boot : Boot)
        → boot.software_reset ≡ true
        → boot.kept_mode ≡ t.ble_mode
        → (r : Control ℕ list_fifo.Queue) × (setup list_fifo no_dec aws_ble zero_value d boot
            ≡ some (ble_mode_on, r)))
button_starts_ble_example =
    button_starts_ble list_fifo arduino_printer no_dec aws_ble pressed_pass started_once heard_once
      polled_twice heard not_asked polled not_configured not_great refl has_aws_ble
