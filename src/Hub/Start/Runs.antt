-- ===== src/Hub/Start/Runs.antt =====
-- What holds of the hub's globals from `setup` on, in whatever it does and whatever comes.
use sensaurus.Prelude.{ℕ, ◌≡◌, false, some, Text}
use sensaurus.CText.Number.{Printer}
use sensaurus.Config.{Settings}
use sensaurus.ProcessingQueue.{QueueItem, Fifo}
use sensaurus.Hub.Network.{WifiEvent, wifi_event}
use sensaurus.Hub.Control.{Control}
use sensaurus.Hub.Control.Reach.{Input}
use sensaurus.Hub.Loop.{Pass, loop_pass}
use sensaurus.Hub.Network.{Flavor}
use sensaurus.Hub.Start.{Started, Boot, setup}
use sensaurus.Hub.Loop.Keeps.{Keeps}

module _ {Float : Type 0} (f : Fifo QueueItem) (p : Printer) (dec : ℕ → Text)
    (flavor : Flavor) where
  -- What the hub does from a start on, in the order in which it happens: passes of `loop` that do not
  -- restart it, bytes and messages that come between two passes, and events of WiFi.
  pub data Runs : Control Float f.Queue → Type 0 where
    started :
        (how : Started) (s : Control Float f.Queue) (zero_value : Float) (d : Settings) (e : Boot)
        → setup f dec flavor zero_value d e ≡ some (how, s)
        → Runs s
    passed :
        (s t : Control Float f.Queue) (e : Pass Float)
        → Runs s
        → loop_pass f dec p flavor e s ≡ some (false, t)
        → Runs t
    came : (s t : Control Float f.Queue) → Runs s → Input f p dec s t → Runs t
    seen :
        (s : Control Float f.Queue) (time : ℕ) (event : WifiEvent)
        → Runs s
        → Runs (record s { network = wifi_event time s.network event })
