-- ===== src/ProcessingQueue.antt =====
-- libraries/queue/ProcessingQueue: the requests that wait for the hub's main loop. The queue of
-- items below it, ArduinoQueue, is another project's: it is the record `Fifo` of its operations
-- and of what its documentation says of them.
pub mod Refine
pub mod Sample
mod Tests
use sensaurus.Prelude.{
  ℕ, ◌+◌, ◌-◌, ◌<◌, ◌≡◌, refl, Bool, true, false, List, [], ◌∷◌, ◌++◌, length, leb, ltb,
  if◌then◌else◌, Text, Option, none, some,
}

pub data RequestType : Type 0 where
  request_none request_mqtt_publish_status request_actuator_set : RequestType

pub record QueueItem : Type 0 where
  pub request_type : RequestType
  pub payload : Text

-- `QueueItem(requestType)`, which leaves the payload empty.
abbrev pub status_item : RequestType → QueueItem
status_item r = record { request_type = r; payload = [] }

-- A bounded queue of items. `blank` is the item that the default constructor makes; `held` lists
-- the items of a queue from the front, and `room` is how many it can hold.
pub record Fifo (A : Type 0) : Type 1 where
  pub Queue : Type 0
  pub blank : A
  pub make : ℕ → Queue
  pub count : Queue → ℕ
  pub push : Queue → A → Queue
  pub pop : Queue → A × Queue
  pub held : Queue → List A
  pub room : Queue → ℕ
  pub held-make : (n : ℕ) → held (make n) ≡ []
  pub room-make : (n : ℕ) → room (make n) ≡ n
  pub count_is : (q : Queue) → count q ≡ length (held q)
  pub held-push :
      (q : Queue) (a : A)
      → held (push q a) ≡ (if ltb (length (held q)) (room q) then held q ++ a ∷ [] else held q)
  pub room-push : (q : Queue) (a : A) → room (push q a) ≡ room q
  pub pop_empty : (q : Queue) → held q ≡ [] → ((pop q).0 ≡ blank) × (held (pop q).1 ≡ [])
  pub pop_first :
      (q : Queue) (a : A) (rest : List A)
      → held q ≡ a ∷ rest
      → ((pop q).0 ≡ a) × (held (pop q).1 ≡ rest)
  pub room-pop : (q : Queue) → room (pop q).1 ≡ room q

abbrev pub max_size : ℕ
max_size = 10

module _ (f : Fifo QueueItem) where
  open f use {Queue, make, count, push, pop}

  -- The constructor.
  unfoldable pub processing_queue : Queue
  processing_queue = make max_size

  unfoldable pub try_push : Queue → QueueItem → Bool × Queue
  try_push q item = if leb max_size (count q) then (false, q) else (true, push q item)

  unfoldable pub try_pop : Queue → QueueItem × Queue
  try_pop q = pop q
