-- ===== src/Hub/Loop/Requests.antt =====
-- A message of the server waits in the queue and is carried out by a later pass.
use sensaurus.Prelude.{
  ℕ, ◌+◌, ◌<◌, ◌≡◌, refl, ap, ◌∙◌, arith, true, false, List, [], ◌∷◌, ◌++◌, length, Option, none,
  some, ltb, leb, Bool-cases, inl, inr, ◌==◌, Text,
}
use sensaurus.CText.{c_str}
use sensaurus.CText.Number.{Printer}
use sensaurus.ProcessingQueue.{QueueItem, request_actuator_set, Fifo, try_push, try_pop}
use sensaurus.Hub.Control.{Control, Build, Doc, handle_incoming_message}
use sensaurus.Hub.Loop.{◌>>=◌, process_queue}

abbrev pub actuator_item : Text → QueueItem
actuator_item payload = record { request_type = request_actuator_set; payload = payload }

module _ (f : Fifo QueueItem) where
  left :
      (q : f.Queue) (first : QueueItem) (others : List QueueItem)
      → f.held q ≡ first ∷ others
      → (f.count q == 0) ≡ false
  left q first others h = rw (f.count_is q, h) (ground arith)

  -- What a queue becomes by pushes that come one after another, those that fail included.
  abbrev pub pushed : f.Queue → List QueueItem → f.Queue
  pushed q [] = q
  pushed q (item ∷ items) = pushed (try_push f q item).1 items

  try_push-first :
      (q : f.Queue) (first item : QueueItem) (waiting : List QueueItem)
      → f.held q ≡ first ∷ waiting
      → (others : List QueueItem) × (f.held (try_push f q item).1 ≡ first ∷ others)
  unfolding try_push
  try_push-first q first item waiting h = elim (Bool-cases (leb 10 (f.count q))) [
    | inl full ↦ (waiting, rw full h)
    | inr open_slot ↦ elim (Bool-cases (ltb (length (f.held q)) (f.room q))) [
      | inl fits ↦ (waiting ++ item ∷ [], rw (open_slot, f.held-push q item, fits, h) refl)
      | inr no_room ↦ (waiting, rw (open_slot, f.held-push q item, no_room) h)
    ]
  ]

  pushed-first :
      (q : f.Queue) (first : QueueItem) (waiting items : List QueueItem)
      → f.held q ≡ first ∷ waiting
      → (others : List QueueItem) × (f.held (pushed q items) ≡ first ∷ others)
  pushed-first q first waiting [] h = (waiting, h)
  pushed-first q first waiting (item ∷ items) h =
      let (others, kept) = try_push-first q first item waiting h in
      pushed-first (try_push f q item).1 first others items kept

module _ {Float : Type 0} (f : Fifo QueueItem) (p : Printer) (dec : ℕ → Text) (build : Build Float)
    (read : Text → Option Text × Doc) (s : Control Float f.Queue) (payload : List ℕ)
    (no_command : (read (c_str payload)).0 ≡ none) where
  queued :
      (q : f.Queue)
      → (try_push f s.queue (actuator_item (c_str payload))).1 ≡ q
      → handle_incoming_message f p dec build read s payload
        ≡ some (record s { queue = q; mqtt_in_count = s.mqtt_in_count + 1 })
  unfolding handle_incoming_message
  queued q pushed = rw (handle_incoming_message, no_command, pushed)

  try_push-held :
      f.room s.queue ≡ 10
      → length (f.held s.queue) < 10
      → f.held (try_push f s.queue (actuator_item (c_str payload))).1
        ≡ f.held s.queue ++ actuator_item (c_str payload) ∷ []
  unfolding try_push
  try_push-held room short =
      let open_slot : leb 10 (f.count s.queue) ≡ false = rw (f.count_is s.queue) (ground arith) in
      let fits : ltb (length (f.held s.queue)) (f.room s.queue) ≡ true = rw room (ground arith) in
      rw (open_slot, f.held-push s.queue (actuator_item (c_str payload)), fits)

  -- A message of the server without a command that comes on an empty queue is the one that the pass
  -- which next looks at the queue carries out, whatever else has been pushed behind it by then, and
  -- whatever else of the hub has changed: that pass gives the text of the message to
  -- `updateActuators`, goes on where this goes on, and takes this one item off the queue.
  pub actuator_message_carried_out :
      (t : Control Float f.Queue) (later : Build Float) (items : List QueueItem)
      → f.room s.queue ≡ 10
      → f.held s.queue ≡ []
      → t.queue ≡ pushed f (try_push f s.queue (actuator_item (c_str payload))).1 items
      → (s' : Control Float f.Queue) × (rest : f.Queue) × (others : List QueueItem)
        × (handle_incoming_message f p dec build read s payload ≡ some s')
        × (t.queue ≡ pushed f s'.queue items)
        × (f.held t.queue ≡ actuator_item (c_str payload) ∷ others)
        × (process_queue f dec later t ≡ (
            later.actuate t.hub (c_str payload) >>= λ hub.
            some (record t { queue = rest; hub = hub })))
        × (f.held rest ≡ others)
  unfolding process_queue try_pop
  actuator_message_carried_out t later items room empty waits =
      let item = actuator_item (c_str payload) in
      let q = (try_push f s.queue item).1 in
      let s' : Control Float f.Queue = record s {
        queue = q;
        mqtt_in_count = s.mqtt_in_count + 1;
      } in
      let alone : f.held q ≡ item ∷ [] =
        try_push-held room (rw empty (omega arith)) ∙ ap (λ h. h ++ item ∷ []) empty in
      let (others, behind) = pushed-first f q item [] items alone in
      let held : f.held t.queue ≡ item ∷ others = ap f.held waits ∙ behind in
      let some_left : (f.count t.queue == 0) ≡ false = left f t.queue item others held in
      let (first, rest) = f.pop_first t.queue item others held in
      (
        s',
        (try_pop f t.queue).1,
        others,
        queued q refl,
        waits,
        held,
        rw (process_queue, some_left, first)
            (ap (λ m. m >>= λ h. some (record t { hub = h; queue = (try_pop f t.queue).1 }))
              (ap (later.actuate t.hub) (ap (λ i. i.payload) first))),
        rest,
      )

  -- A message of the server without a command that comes when ten requests wait is dropped: it is
  -- counted, and nothing else changes.
  pub actuator_message_dropped :
      length (f.held s.queue) ≡ 10
      → handle_incoming_message f p dec build read s payload
        ≡ some (record s { mqtt_in_count = s.mqtt_in_count + 1 })
  unfolding handle_incoming_message try_push
  actuator_message_dropped full =
      let no_slot : leb 10 (f.count s.queue) ≡ true = rw (f.count_is s.queue, full) refl in
      rw (handle_incoming_message, no_command, no_slot)
