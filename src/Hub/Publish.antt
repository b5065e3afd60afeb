-- ===== src/Hub/Publish.antt =====
-- `hubPublish` of hub-esp32/hub-esp32.ino: a message goes to the server in pieces, by MQTT, or
-- whole with retries, by AWS IoT. What the client library answers is a parameter.
pub mod Pieces
mod Tests
use sensaurus.Prelude.{
  ℕ, zero, suc, ◌+◌, ◌*◌, ◌<◌, ◌≤◌, Bool, true, false, List, [], ◌∷◌, ◌++◌, length, take, drop,
  ◌==◌, if◌then◌else◌, Text,
}
use sensaurus.Hub.{Hub, set_last_error}

abbrev pub err_publish : ℕ
err_publish = 4

-- The answers of PubSubClient during one call: `writes k` is that of the `k`-th `write`.
pub record MqttClient : Type 0 where
  pub connected : Bool
  pub begin_publish : Bool
  pub writes : ℕ → Bool
  pub end_publish : Bool

-- The loop that writes what remains of a message, at most `max` characters at a time, and whether
-- every write succeeded. A write that fails is the last one. `fuel` bounds the number of writes.
unfoldable pub write_pieces : (ℕ → Bool) → ℕ → ℕ → ℕ → Text → Bool × List Text
write_pieces writes max zero k rest = (true, [])
write_pieces writes max (suc fuel) k rest =
    let others = write_pieces writes max fuel (k + 1) (drop max rest) in
    if length rest == 0
    then (true, [])
    else if writes k
    then (others.0, take max rest ∷ others.1)
    else (false, take max rest ∷ [])

-- The pieces handed to the client, and whether all its answers were good. A message of n
-- characters takes n writes at most.
unfoldable pub mqtt_send : MqttClient → ℕ → Text → Bool × List Text
unfolding write_pieces
mqtt_send client max message =
    let (written, pieces) = write_pieces client.writes max (length message) 0 message in
    if client.begin_publish
    then (if written then client.end_publish else false, pieces)
    else (false, [])

-- The retry loop: `rets k` is the result of the `k`-th call of `publish`, `left` is the number of
-- retries that are left. The milliseconds waited before each retry come with the result.
unfoldable pub aws_try : ℕ → (ℕ → ℕ) → ℕ → ℕ → ℕ × List ℕ
aws_try not_idle rets k zero = (rets k, [])
aws_try not_idle rets k (suc left) =
    let later = aws_try not_idle rets (k + 1) left in
    if rets k == not_idle then (later.0, (k + 1) * 5 ∷ later.1) else (rets k, [])

module _ {Float : Type 0} where
  -- The end that both kinds of publishing share.
  unfoldable pub count_publish : Hub Float → ℕ → ℕ → Hub Float
  count_publish s time ret =
      if ret == 0
      then record s { mqtt_out_count = s.mqtt_out_count + 1 }
      else set_last_error s time err_publish

  -- With ENABLE_MQTT: the result, the hub afterwards, and the pieces sent.
  unfoldable pub hub_publish : Hub Float → ℕ → MqttClient → ℕ → Text → ℕ × Hub Float × List Text
  unfolding mqtt_send count_publish set_last_error
  hub_publish s time client max message =
      let (good, pieces) = mqtt_send client max message in
      let ret = if good then 0 else 1 in
      if client.connected
      then (ret, count_publish s time ret, pieces)
      else (1, set_last_error s time err_publish, [])

  -- With ENABLE_AWS_IOT.
  unfoldable pub hub_publish_aws : Hub Float → ℕ → ℕ → (ℕ → ℕ) → ℕ × Hub Float × List ℕ
  unfolding aws_try count_publish
  hub_publish_aws s time not_idle rets =
      let (ret, delays) = aws_try not_idle rets 0 4 in (ret, count_publish s time ret, delays)
