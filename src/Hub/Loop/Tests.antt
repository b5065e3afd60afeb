-- ===== src/Hub/Loop/Tests.antt =====
-- The loop at concrete inputs.
use sensaurus.Prelude.{
  ℕ, ◌+◌, ◌≡◌, refl, arith, List, [], ◌∷◌, Option, none, some, ltb, if◌then◌else◌, replicate, Text,
  codes, u32,
}
use sensaurus.CText.{c_str}
use sensaurus.CText.Hex.{arduino_printer}
use sensaurus.ProcessingQueue.{QueueItem, status_item, request_mqtt_publish_status, try_push}
use sensaurus.ProcessingQueue.Sample.{list_fifo}
use sensaurus.Hub.Control.{Control, Doc, no_doc, Build, handle_incoming_message}
use sensaurus.Hub.Loop.{◌>>=◌, poll_if_due, process_queue}
use sensaurus.Hub.Loop.Timers.{poll_if_due_lem}
use sensaurus.Hub.Loop.Requests.{pushed, actuator_item, actuator_message_carried_out}
use sensaurus.Hub.Sample.{quiet_hub, fresh_control}

abbrev silent_build : Build ℕ
silent_build = record {
  do_polling = λ hub. some hub;
  after_message = λ hub i. some hub;
  actuate = λ hub text. some (record hub { err_count = 7 });
}

abbrev no_dec : ℕ → Text
no_dec n = codes "0"

abbrev nothing_read : Text → Option Text × Doc
nothing_read text = (none, no_doc)

-- Polled last 10 milliseconds before the count wraps around.
abbrev polled_before : Control ℕ list_fifo.Queue
polled_before = record fresh_control {
  last_poll_time = 4294967286;
  last_send_time = 4294967286;
  send_interval = 1000;
}

poll_if_due_lem_example :
    poll_if_due list_fifo no_dec silent_build (u32 (4294967286 + 1200)) polled_before
    ≡ some (
        if ltb 1000 1200
        then record polled_before { hub = quiet_hub; last_poll_time = u32 (4294967286 + 1000) }
        else polled_before)
poll_if_due_lem_example =
    poll_if_due_lem list_fifo no_dec polled_before 4294967286 1200 (omega arith) (omega arith)
      silent_build quiet_hub refl refl

-- The message waits, and a request for the status behind it.
abbrev with_message : Control ℕ list_fifo.Queue
with_message = record fresh_control {
  queue = (actuator_item (codes "{}") ∷ status_item request_mqtt_publish_status ∷ [], 10);
}

actuator_message_carried_out_example :
    (s' : Control ℕ list_fifo.Queue) × (rest : list_fifo.Queue) × (others : List QueueItem)
    × (handle_incoming_message list_fifo arduino_printer no_dec silent_build nothing_read
          fresh_control
          (codes "{}")
        ≡ some s')
    × (with_message.queue
        ≡ pushed list_fifo s'.queue (status_item request_mqtt_publish_status ∷ []))
    × (list_fifo.held with_message.queue ≡ actuator_item (codes "{}") ∷ others)
    × (process_queue list_fifo no_dec silent_build with_message ≡ (
        silent_build.actuate quiet_hub (codes "{}") >>= λ hub.
        some (record with_message { queue = rest; hub = hub })))
    × (list_fifo.held rest ≡ others)
unfolding try_push c_str
actuator_message_carried_out_example =
    actuator_message_carried_out list_fifo arduino_printer no_dec silent_build nothing_read
      fresh_control (codes "{}") refl with_message silent_build
      (status_item request_mqtt_publish_status ∷ []) refl refl refl

abbrev busy : Control ℕ list_fifo.Queue
busy = record fresh_control { queue = (replicate 10 (status_item request_mqtt_publish_status), 10) }
