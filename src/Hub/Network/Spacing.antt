-- ===== src/Hub/Network/Spacing.antt =====
-- When `checkNetwork` tries to reconnect.
use sensaurus.Prelude.{
  ℕ, ◌+◌, ◌-◌, ◌^◌, ◌<◌, ◌≡◌, ap, ◌∙◌, arith, true, false, not, ◌||◌, some, ltb, u32,
}
use sensaurus.Config.{Config}
use sensaurus.Hub.Network.{Network, since, Sight, check_network}

-- The 32-bit times of two moments tell how long the one is after the other, also where the count
-- of milliseconds has wrapped around meanwhile, for less than 2 ^ 32 milliseconds.
pub since-later : (start d : ℕ) → d < 2 ^ 32 → since (u32 (start + d)) (u32 start) ≡ d
since-later start d h = omega arith

module _ (config : Config) (e : Sight) (s : Network) (start d : ℕ) (less : d < 2 ^ 32)
    (before : s.last_mqtt_connection_attempt ≡ u32 start) (now : e.time ≡ u32 (start + d)) where
  since-attempt : since e.time s.last_mqtt_connection_attempt ≡ d
  since-attempt = rw (before, now) (since-later start d less)

  module _ (late : 20000 < d) (enabled : s.pubsub_enabled ≡ true)
      (lost : (not e.client_connected || not e.state_connected) ≡ true) where
    due : ltb 20000 (since e.time s.last_mqtt_connection_attempt) ≡ true
    due = rw since-attempt (ground arith)

    restarts_wifi :
        e.wifi_up ≡ false
        → check_network config e s
          ≡ some (
            record s {
              last_mqtt_connection_attempt = u32 (s.last_mqtt_connection_attempt + 15000);
            },
            true,
          )
    unfolding check_network
    restarts_wifi down = rw (check_network, enabled, lost, due, down)

-- While WiFi is down and the client is not connected, a check that comes more than 35 seconds, and
-- less than 2 ^ 32 milliseconds, after the last attempt restarts WiFi and leaves the next check, at
-- once, to restart it again.
pub check_network_piles_up :
    (config : Config) (e : Sight) (s : Network) (start d : ℕ)
    → 35000 < d
    → d < 2 ^ 32
    → s.last_mqtt_connection_attempt ≡ u32 start
    → e.time ≡ u32 (start + d)
    → s.pubsub_enabled ≡ true
    → (not e.client_connected || not e.state_connected) ≡ true
    → e.wifi_up ≡ false
    → (s' : Network) × (s'' : Network) × (check_network config e s ≡ some (s', true))
      × (check_network config e s' ≡ some (s'', true))
check_network_piles_up config e s start d long less before now enabled lost down =
    let s' : Network = record s {
      last_mqtt_connection_attempt = u32 (s.last_mqtt_connection_attempt + 15000);
    } in
    let moved : u32 (s.last_mqtt_connection_attempt + 15000) ≡ u32 (start + 15000) =
      rw before (omega arith) in
    let later : e.time ≡ u32 (start + 15000 + (d - 15000)) = now ∙ ap u32 (omega arith) in
    (
      s',
      record s' { last_mqtt_connection_attempt = u32 (s'.last_mqtt_connection_attempt + 15000) },
      restarts_wifi config e s start d less before now (omega arith) enabled lost down,
      restarts_wifi config e s' (start + 15000) (d - 15000) (omega arith) moved later (omega arith)
          enabled lost down,
    )
