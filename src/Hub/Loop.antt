-- ===== src/Hub/Loop.antt =====
-- `loop` of hub-esp32/hub-esp32.ino, in each of the build flavors, and `updateTime`. The times
-- that `millis` returns, the button and what comes in are parameters.
pub mod Builds
pub mod Timers
pub mod Requests
pub mod Time
pub mod Keeps
mod Tests
use sensaurus.Prelude.{
  ℕ, zero, suc, ◌+◌, ◌-◌, ◌*◌, ◌/◌, ◌%◌, ◌^◌, Bool, true, false, not, ◌&&◌, List, [], ◌∷◌, ◌++◌,
  Option, none, some, ltb, ◌==◌, if◌then◌else◌, Text, codes, u32,
}
use sensaurus.CText.Number.{Printer}
use sensaurus.CheckStream.{crlf}
use sensaurus.ProcessingQueue.{
  QueueItem, request_none, request_mqtt_publish_status, request_actuator_set, Fifo, try_pop,
}
use sensaurus.Hub.{
  Hub, Event, console, led, restart, free_heap, wifi_begin, send_status, send_sensor_values, emit,
  max_device_count,
}
use sensaurus.Hub.Receive.{drop_silent}
use sensaurus.Hub.Network.{
  since, Network, Flavor, uses_aws, Sight, check_network, check_network_aws,
}
use sensaurus.Hub.Control.{Control, Build, Doc, tell, say, type_bytes, handle_incoming_message}

infixl 5 ◌>>=◌
abbrev pub ◌>>=◌ : {A B : Type 0} → Option A → (A → Option B) → Option B
none >>= f = none
some a >>= f = f a

-- The loop of `updateTime` with `counter` rounds made: 0 once the `k`-th update succeeds, 1 after
-- eleven failures, `none` where the fuel is used up.
unfoldable pub update_rounds : (ℕ → Bool) → ℕ → ℕ → Option ℕ
update_rounds updates zero counter = none
update_rounds updates (suc fuel) counter =
    let again = update_rounds updates fuel (counter + 1) in
    if updates counter then some 0 else if ltb 10 (counter + 1) then some 1 else again

-- The time of a timer that is due: it moves on by the interval, so that it does not drift, but for
-- the first time.
unfoldable pub next_time : ℕ → ℕ → ℕ → ℕ
next_time last interval time = if last == 0 then time else u32 (last + interval)

-- What one pass of `loop` meets: the build, what the libraries answer, the bytes typed at the
-- console, the times read for polling and for the rest, whether the button is pressed, and how
-- often the time server fails, with the time behind it and the seconds that it tells, and the
-- messages of the server, which `deserialize` takes apart.
pub record Pass (Float : Type 0) : Type 0 where
  pub build : Build Float
  pub sight : Sight
  pub typed : List ℕ
  pub poll_time : ℕ
  pub time : ℕ
  pub button_low : Bool
  pub blink_time : ℕ
  pub updates : ℕ → Bool
  pub update_end : ℕ
  pub epoch : ℕ
  pub messages : List (List ℕ)
  pub deserialize : Text → Option Text × Doc

-- All LEDs of the devices from the `i`-th on.
abbrev leds : ℕ → ℕ → Bool → List Event
leds zero i on = []
leds (suc n) i on = led i on ∷ leds n (i + 1) on

-- The end of `updateTime`, at a time and with the seconds that the time server tells.
unfoldable pub note_update :
    {Float Queue : Type 0} → (ℕ → Text) → ℕ → ℕ → Control Float Queue → Control Float Queue
unfolding emit
note_update dec end epoch s =
    let updated = record s { last_time_update = end; last_epoch_seconds = epoch } in
    if s.hub.config.console_enabled
    then tell updated (console (codes "updated time: " ++ dec epoch ++ crlf) ∷ [])
    else updated

-- The connections as a check of the network leaves them, and its restart of WiFi.
abbrev pub with_network :
    {Float Queue : Type 0} → Network → Bool → Control Float Queue → Control Float Queue
with_network network again s =
    tell (record s { network = network }) (if again then wifi_begin ∷ [] else [])

module _ {Float : Type 0} (f : Fifo QueueItem) (dec : ℕ → Text) where
  open f use {Queue, count}

  -- `updateTime`: its result, and the globals afterwards. Eleven rounds are enough.
  unfoldable pub update_time :
      (ℕ → Bool) → ℕ → ℕ → Control Float Queue → Option (ℕ × Control Float Queue)
  unfolding update_rounds note_update
  update_time updates end epoch s = elim (update_rounds updates 11 0) [
    | none ↦ none
    | some rc ↦ some (rc, note_update dec end epoch s)
  ]

  -- One item of the queue, if there is one.
  unfoldable pub process_queue : Build Float → Control Float Queue → Option (Control Float Queue)
  unfolding try_pop emit
  process_queue build s =
      let (item, rest) = try_pop f s.queue in
      let popped : Control Float Queue = record s { queue = rest } in
      if count s.queue == 0 then some s else elim item.request_type [
        | request_mqtt_publish_status ↦ some (tell popped (send_status ∷ []))
        | request_actuator_set ↦
            build.actuate s.hub item.payload >>= λ hub. some (record popped { hub = hub })
        | request_none ↦ some popped
      ]

  -- The poll, if it is due.
  unfoldable pub poll_if_due : Build Float → ℕ → Control Float Queue → Option (Control Float Queue)
  unfolding next_time
  poll_if_due build time s =
      if ltb s.poll_interval (since time s.last_poll_time)
      then (build.do_polling s.hub >>= λ hub. some (record s {
        hub = hub;
        last_poll_time = next_time s.last_poll_time s.poll_interval time;
      }))
      else some s

  -- The polling of the devices, and the check for devices that are gone.
  unfoldable pub poll_devices : Build Float → ℕ → Control Float Queue → Option (Control Float Queue)
  unfolding poll_if_due drop_silent emit
  poll_devices build time s =
      if s.poll_interval == 0
      then some s
      else poll_if_due build time s >>= λ s'.
          let (devices, events) = drop_silent 0 s'.hub.devices in
          some (tell (record s' { hub = record s'.hub { devices = devices } }) events)

  -- The sending of the sensors' values, if it is due.
  unfoldable pub send_if_due : ℕ → Control Float Queue → Control Float Queue
  unfolding next_time emit
  send_if_due time s =
      if s.send_interval == 0
      then s
      else if ltb s.send_interval (since time s.last_send_time)
      then record (tell s (send_sensor_values time ∷ [])) {
        last_send_time = next_time s.last_send_time s.send_interval time;
      }
      else s

  -- The blinking in configuration mode, and the free memory every five minutes.
  unfoldable pub display : Pass Float → Control Float Queue → Control Float Queue
  unfolding emit
  display e s =
      let on = not (e.blink_time / 8 % 2 == 0) in
      let blinked = if s.config_mode then tell s (leds max_device_count 0 on) else s in
      if s.hub.config.console_enabled && ltb 300000 (since e.time s.last_memory_display)
      then record (tell blinked (free_heap ∷ [])) { last_memory_display = e.time }
      else blinked

  -- What `loop` does behind the check of the button.
  unfoldable pub end_of_pass : Pass Float → Control Float Queue → Option (Control Float Queue)
  unfolding display update_time
  end_of_pass e s =
      if ltb 3600000 (since e.time s.last_time_update)
      then (update_time e.updates e.update_end e.epoch (display e s) >>= λ r. some r.1)
      else some (display e s)

  -- Messages of the server, one after another.
  unfoldable pub handle_messages :
      Printer
      → Build Float
      → (Text → Option Text × Doc)
      → Control Float Queue
      → List (List ℕ)
      → Option (Control Float Queue)
  unfolding handle_incoming_message
  handle_messages p build read s [] = some s
  handle_messages p build read s (payload ∷ payloads) =
      handle_incoming_message f p dec build read s payload >>= λ s'.
      handle_messages p build read s' payloads

  -- `checkNetwork` of the build. PubSubClient hands over its messages first; the level of the status
  -- LED, which AWS IoT sets, is left out.
  unfoldable pub check_connection :
      Printer → Flavor → Pass Float → Control Float Queue → Option (Control Float Queue)
  unfolding uses_aws check_network check_network_aws handle_messages emit
  check_connection p flavor e s =
      let (network, level, again) = check_network_aws e.sight.time e.sight.wifi_up s.network in
      if uses_aws flavor
      then some (with_network network again s)
      else handle_messages p e.build e.deserialize s e.messages >>= λ s'.
          check_network s'.hub.config e.sight s'.network >>= λ net.
          some (with_network net.0 net.1 s')

  -- The yield to other tasks, to which AWS IoT hands over its messages.
  unfoldable pub yield_to_tasks :
      Printer → Flavor → Pass Float → Control Float Queue → Option (Control Float Queue)
  unfolding uses_aws handle_messages
  yield_to_tasks p flavor e s =
      let handled = handle_messages p e.build e.deserialize s e.messages in
      if uses_aws flavor then handled else some s

  -- What `loop` does first: one item of the queue, the check of the network, what is typed, and the
  -- yield.
  unfoldable pub take_input :
      Printer → Flavor → Pass Float → Control Float Queue → Option (Control Float Queue)
  unfolding process_queue check_connection type_bytes yield_to_tasks
  take_input p flavor e s = process_queue e.build s >>= λ s1.
      check_connection p flavor e s1 >>= λ s2.
      type_bytes f p dec e.build s2 e.typed >>= λ s3. yield_to_tasks p flavor e s3

  -- The check of the button, which restarts the hub into BLE mode, and the rest; true for a restart.
  unfoldable pub check_button :
      Pass Float → Control Float Queue → Option (Bool × Control Float Queue)
  unfolding end_of_pass emit
  check_button e s =
      if e.button_low && not s.config_mode
      then some (
        true,
        record (tell s (
            say (codes "Button pressed.")
            ∷ console (codes "bleMode=" ++ dec (u32 (s.ble_mode + 1)) ++ 10 ∷ [])
            ∷ restart
            ∷ [])) { config_mode = true; ble_mode = u32 (s.ble_mode + 1) },
      )
      else end_of_pass e s >>= λ s'. some (false, s')

  -- One pass of `loop`; true where it ends in a restart.
  unfoldable pub loop_pass :
      Printer → Flavor → Pass Float → Control Float Queue → Option (Bool × Control Float Queue)
  unfolding take_input poll_devices send_if_due check_button emit
  loop_pass p flavor e s = take_input p flavor e s >>= λ s1.
      if not (s1.sw_reboot == 0)
      then some (true, tell s1 (say (codes "Rebooting on request...") ∷ restart ∷ []))
      else poll_devices e.build e.poll_time s1 >>= λ s2. check_button e (send_if_due e.time s2)
