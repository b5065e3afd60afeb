-- ===== src/Hub/Start/Ends.antt =====
-- `setup` ends, and why it ends as it does.
use sensaurus.Prelude.{ℕ, ◌≤◌, ◌≡◌, true, false, ◌&&◌, Option, some, ◌⊎◌, Text}
use sensaurus.Config.{Config}
use sensaurus.ProcessingQueue.{QueueItem, Fifo}
use sensaurus.Hub.Control.{Control}
use sensaurus.Hub.Network.{Flavor, has_ble, uses_aws}
use sensaurus.Hub.Start.{Started, ble_mode_on, wifi_disabled, ready, frozen, Boot}
use sensaurus.Hub.Start.Wifi.{Succeeds}

-- Why `setup` ends as it does.
pub data Why (flavor : Flavor) (config : Config) (e : Boot) : Started → Type 0 where
  asked :
      has_ble flavor ≡ true
      → (e.button_low ≡ true) ⊎ ((e.software_reset ≡ true) × ¬ (e.kept_mode ≡ 0))
      → Why flavor config e ble_mode_on
  not_enabled : config.wifi_enabled ≡ false → Why flavor config e wifi_disabled
  no_wifi : ((k : ℕ) → k ≤ 3 → e.begins k ≡ false) → Why flavor config e (frozen 1)
  no_time : ((k : ℕ) → k ≤ 10 → e.updates k ≡ false) → Why flavor config e (frozen 2)
  no_server : uses_aws flavor ≡ true → e.answers.connect 0 ≡ false → Why flavor config e (frozen 3)
  no_topic :
      uses_aws flavor ≡ true
      → e.answers.connect 0 ≡ true
      → e.answers.subscribe_command && e.answers.subscribe_actuators ≡ false
      → Why flavor config e (frozen 4)
  all_there :
      Succeeds e.begins 3
      → Succeeds e.updates 10
      → (uses_aws flavor ≡ true
          → (e.answers.connect 0 ≡ true)
            × (e.answers.subscribe_command && e.answers.subscribe_actuators ≡ true))
      → Why flavor config e ready

module _ {Float Queue : Type 0} (flavor : Flavor) (config : Config) (e : Boot) where
  -- A result of connecting, and why it is that one.
  abbrev Connects : Option (Started × Control Float Queue) → Type 0
  Connects r =
      (how : Started) × (s' : Control Float Queue) × (r ≡ some (how, s'))
      × (Succeeds e.begins 3 → Succeeds e.updates 10 → Why flavor config e how)

module _ {Float : Type 0} (f : Fifo QueueItem) (dec : ℕ → Text) (flavor : Flavor) where
  abbrev Ends : Config → Boot → Option (Started × Control Float f.Queue) → Type 0
  Ends config e r =
      (how : Started) × (s' : Control Float f.Queue) × (r ≡ some (how, s'))
      × Why flavor config e how
