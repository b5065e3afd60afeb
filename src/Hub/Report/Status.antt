-- ===== src/Hub/Report/Status.antt =====
-- `sendStatus` of hub-esp32/hub-esp32.ino, and what its counters tell.
use sensaurus.Prelude.{
  ℕ, ◌+◌, ◌<◌, ◌≤◌, ◌≡◌, refl, ap, ◌∙◌, arith, Bool, true, List, [], ◌∷◌, ◌++◌, if◌then◌else◌, ◌==◌,
  All, length, Option, none, some, Text, codes,
}
use sensaurus.CText.{c_str, text_eq}
use sensaurus.CheckStream.{crlf}
use sensaurus.Hub.{Hub, console, emit}
use sensaurus.Hub.Publish.{MqttClient, hub_publish}
use sensaurus.Hub.Publish.Pieces.{join_pieces, hub_publish_lem}
use sensaurus.Hub.Control.{Control, tell}
use sensaurus.Hub.Report.{hub_topic}

-- The value of a member of a JSON object.
pub data Value : Type 0 where
  text : Text → Value
  number : ℕ → Value

-- What `sendStatus` finds: the address of the hub, when its program was built, the time since its
-- start, when it was started, the time of an error, the
-- status of WiFi, and the answers of the client.
pub record Moment : Type 0 where
  pub local_ip : Text
  pub built : Text
  pub uptime : ℕ
  pub boot_time_epoch : ℕ
  pub error_time : ℕ
  pub wifi_status : ℕ
  pub client : MqttClient

-- The value of the first member of that name.
unfoldable pub member : Text → List (Text × Value) → Option Value
unfolding text_eq
member name [] = none
member name ((n, v) ∷ members) =
    let rest = member name members in if text_eq n name then some v else rest

-- The status of a hub: the name of its WiFi network, its version, how many errors there were, the
-- time and the code of the last one, the interval of polling, the messages received and sent, the
-- address, when the program was built, the time since the start, and when that was.
pub record Tells {Float Queue : Type 0} (now : Moment) (s : Control Float Queue)
    (members : List (Text × Value)) : Type 0 where
  pub wifi_network :
      member (codes "wifi_network") members ≡ some (text (c_str s.hub.config.wifi_network))
  pub version : member (codes "version") members ≡ some (number s.hub.config.version)
  pub err_count : member (codes "err_count") members ≡ some (number s.hub.err_count)
  pub err_last_ts : member (codes "err_last_ts") members ≡ some (number s.hub.err_last_ts)
  pub err_code : member (codes "err_code") members ≡ some (number s.hub.err_last_error_code)
  pub poll_interval : member (codes "poll_interval") members ≡ some (number s.poll_interval)
  pub mqtt_in : member (codes "mqttIn") members ≡ some (number s.mqtt_in_count)
  pub mqtt_out : member (codes "mqttOut") members ≡ some (number s.hub.mqtt_out_count)
  pub local_ip : member (codes "local_ip") members ≡ some (text now.local_ip)
  pub built : member (codes "built") members ≡ some (text now.built)
  pub uptime : member (codes "uptime") members ≡ some (number now.uptime)
  pub boot_time_epoch : member (codes "boot_time_epoch") members ≡ some (number now.boot_time_epoch)
  pub nothing_else : length members ≡ 12

if_true : {A : Type 0} {b : Bool} (x y : A) → b ≡ true → (if b then x else y) ≡ x
if_true x y h = rw h refl

module _ {Float Queue : Type 0} where
  -- The members of the status, in order.
  unfoldable pub status_members : Moment → Control Float Queue → List (Text × Value)
  status_members now s =
      (codes "wifi_network", text (c_str s.hub.config.wifi_network))
      ∷ (codes "version", number s.hub.config.version)
      ∷ (codes "err_count", number s.hub.err_count)
      ∷ (codes "err_last_ts", number s.hub.err_last_ts)
      ∷ (codes "err_code", number s.hub.err_last_error_code)
      ∷ (codes "poll_interval", number s.poll_interval)
      ∷ (codes "mqttIn", number s.mqtt_in_count)
      ∷ (codes "mqttOut", number s.hub.mqtt_out_count)
      ∷ (codes "local_ip", text now.local_ip)
      ∷ (codes "built", text now.built)
      ∷ (codes "uptime", number now.uptime)
      ∷ (codes "boot_time_epoch", number now.boot_time_epoch)
      ∷ []

  -- A line on the console, if that is enabled.
  unfoldable pub note : Text → Control Float Queue → Control Float Queue
  unfolding emit
  note line s = if s.hub.config.console_enabled then tell s (console (line ++ crlf) ∷ []) else s

  -- What is said on the console of a result of publishing that is not 0.
  unfoldable pub report :
      (ℕ → Text) → ℕ → ℕ × Hub Float × List Text → Control Float Queue → Control Float Queue
  unfolding emit
  report dec wifi_status (ret, hub, pieces) s =
      let sent = record s { hub = hub } in
      if ret == 0
      then sent
      else tell sent
          (console (codes "error publishing; wifi status: " ++ dec wifi_status ++ 10 ∷ []) ∷ [])

  -- `sendStatus` with ENABLE_MQTT, where `json` is what `serializeJson` writes of a document of 256
  -- bytes after these assignments: the globals
  -- afterwards, and what has been handed to the client, with its topic.
  unfoldable pub send_status_now :
      (ℕ → Text)
      → (List (Text × Value) → Text)
      → ℕ
      → Moment
      → Control Float Queue
      → Control Float Queue × List (Text × List Text)
  unfolding status_members note hub_publish report
  send_status_now dec json max now s =
      let begun = note (codes "sending status") s in
      let published =
        hub_publish begun.hub now.error_time now.client max (json (status_members now s)) in
      if s.network.pubsub_enabled
      then (
        note (codes "done sending status") (report dec now.wifi_status published begun),
        (hub_topic s.hub.config (codes "/status"), published.2) ∷ [],
      )
      else (note (codes "done sending status") begun, [])

  note-counters :
      (line : Text) (s : Control Float Queue)
      → ((note line s).hub.mqtt_out_count ≡ s.hub.mqtt_out_count)
        × ((note line s).hub.err_count ≡ s.hub.err_count)
  unfolding note
  note-counters line s = (ground arith, ground arith)

  report_success :
      (dec : ℕ → Text) (wifi_status : ℕ) (r : ℕ × Hub Float × List Text) (s : Control Float Queue)
      → r.0 ≡ 0
      → report dec wifi_status r s ≡ record s { hub = r.1 }
  unfolding report
  report_success dec wifi_status (ret, hub, pieces) s success =
      if_true {b = ret == 0} _ _ (ground (arith, success))

  status_members-Tells :
      (now : Moment) (s : Control Float Queue) → Tells now s (status_members now s)
  unfolding status_members member text_eq
  status_members-Tells now s = record {
    wifi_network = refl;
    version = refl;
    err_count = refl;
    err_last_ts = refl;
    err_code = refl;
    poll_interval = refl;
    mqtt_in = refl;
    mqtt_out = refl;
    local_ip = refl;
    built = refl;
    uptime = refl;
    boot_time_epoch = refl;
    nothing_else = refl;
  }

  -- While publishing is enabled, and the client is connected and accepts everything, `sendStatus`
  -- hands it one message for the topic of this hub's status, in pieces of the client's size at most,
  -- and counts it as one message sent and no error. Together the pieces are what `serializeJson`
  -- writes of a document of 256 bytes after twelve assignments, which give each member of the
  -- status what the hub holds for it: the name of the WiFi network, the version, the number of
  -- errors, the time and the code of the last one, the interval of polling, the numbers of messages
  -- in and out, before this one, the address, the time of building, the time since the start and the
  -- time of the start.
  pub send_status_lem :
      (dec : ℕ → Text) (json : List (Text × Value) → Text) (max : ℕ) (now : Moment)
      (s : Control Float Queue)
      → s.network.pubsub_enabled ≡ true
      → now.client.connected ≡ true
      → now.client.begin_publish ≡ true
      → now.client.end_publish ≡ true
      → ((k : ℕ) → now.client.writes k ≡ true)
      → 0 < max
      → (pieces : List Text) × ((send_status_now dec json max now s).1
          ≡ (hub_topic s.hub.config (codes "/status"), pieces) ∷ [])
        × ((members : List (Text × Value)) × (join_pieces pieces ≡ json members)
            × Tells now s members)
        × All (λ p. length p ≤ max) pieces
        × ((send_status_now dec json max now s).0.hub.mqtt_out_count ≡ s.hub.mqtt_out_count + 1)
        × ((send_status_now dec json max now s).0.hub.err_count ≡ s.hub.err_count)
  unfolding send_status_now
  send_status_lem dec json max now s enabled connected begins ends good pos =
      let begun = note (codes "sending status") s in
      let (sent, errors) = note-counters (codes "sending status") s in
      let published =
        hub_publish begun.hub now.error_time now.client max (json (status_members now s)) in
      let (success, joined, short, counted) =
        hub_publish_lem begun.hub now.error_time max now.client (json (status_members now s))
          connected begins ends good pos in
      let told = report dec now.wifi_status published begun in
      let reported : told ≡ record begun { hub = published.1 } =
        report_success dec now.wifi_status published begun success in
      let topic = hub_topic s.hub.config (codes "/status") in
      let chosen : send_status_now dec json max now s
          ≡ (note (codes "done sending status") told, (topic, published.2) ∷ []) =
        if_true _ _ enabled in
      let (sent', errors') = note-counters (codes "done sending status") told in
      (
        published.2,
        ap (λ r. r.1) chosen,
        (status_members now s, joined, status_members-Tells now s),
        short,
        ap (λ r. r.0.hub.mqtt_out_count) chosen
            ∙ sent'
            ∙ ap (λ t. t.hub.mqtt_out_count) reported
            ∙ ap (λ h. h.mqtt_out_count) counted
            ∙ ap (λ n. n + 1) sent,
        ap (λ r. r.0.hub.err_count) chosen
            ∙ errors'
            ∙ ap (λ t. t.hub.err_count) reported
            ∙ ap (λ h. h.err_count) counted
            ∙ errors,
      )
