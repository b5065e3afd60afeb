-- ===== src/ProcessingQueue/Refine.antt =====
-- The queue of requests against its specification: a list of at most ten items, served in order.
use sensaurus.Prelude.{
  ◌≡◌, refl, ◌∙◌, arith, Bool, true, false, List, [], ◌∷◌, ◌++◌, length, leb, ltb, if◌then◌else◌,
  Bool-cases, inl, inr,
}
use sensaurus.ProcessingQueue.{QueueItem, Fifo, max_size, processing_queue, try_push, try_pop}

-- What the hub asks of the queue, and what it is told.
pub data Op : Type 0 where
  ask_push : QueueItem → Op
  ask_pop : Op

pub data Reply : Type 0 where
  pushed : Bool → Reply
  popped : QueueItem → Reply

-- The specification.
abbrev pub spec_push : List QueueItem → QueueItem → Bool × List QueueItem
spec_push xs a = if leb max_size (length xs) then (false, xs) else (true, xs ++ a ∷ [])

abbrev pub spec_pop : QueueItem → List QueueItem → QueueItem × List QueueItem
spec_pop blank [] = (blank, [])
spec_pop blank (a ∷ xs) = (a, xs)

pub spec_run : QueueItem → List QueueItem → List Op → List Reply
spec_run blank xs [] = []
spec_run blank xs (ask_push a ∷ ops) =
    let (done, ys) = spec_push xs a in pushed done ∷ spec_run blank ys ops
spec_run blank xs (ask_pop ∷ ops) =
    let (a, ys) = spec_pop blank xs in popped a ∷ spec_run blank ys ops

module _ (f : Fifo QueueItem) where
  unfoldable pub run : f.Queue → List Op → List Reply
  run q [] = []
  run q (ask_push a ∷ ops) = let (done, r) = try_push f q a in pushed done ∷ run r ops
  run q (ask_pop ∷ ops) = let (a, r) = try_pop f q in popped a ∷ run r ops

  try_push_refines :
      (q : f.Queue) (a : QueueItem)
      → f.room q ≡ max_size
      → let (done, r) = try_push f q a in
        ((done, f.held r) ≡ spec_push (f.held q) a) × (f.room r ≡ max_size)
  unfolding try_push
  try_push_refines q a room = elim (Bool-cases (leb max_size (f.count q))) [
    | inl full ↦ rw full (rw (rw (f.count_is q) at full), room)
    | inr free ↦
        let free' = rw (f.count_is q) at free in
        let lt : ltb (length (f.held q)) 10 ≡ true = ground arith in
        rw (free, free') (rw (f.held-push q a, room, lt), f.room-push q a ∙ room)
  ]

  try_pop_refines :
      (q : f.Queue) (xs : List QueueItem)
      → f.held q ≡ xs
      → f.room q ≡ max_size
      → let (a, r) = try_pop f q in ((a, f.held r) ≡ spec_pop f.blank xs) × (f.room r ≡ max_size)
  unfolding try_pop
  try_pop_refines q [] e room = (ground (arith, f.pop_empty q e), f.room-pop q ∙ room)
  try_pop_refines q (a ∷ xs) e room = (ground (arith, f.pop_first q a xs e), f.room-pop q ∙ room)

  run_refines :
      (ops : List Op) (q : f.Queue)
      → f.room q ≡ max_size
      → run q ops ≡ spec_run f.blank (f.held q) ops
  unfolding run spec_run
  run_refines [] q room = refl
  run_refines (ask_push a ∷ ops) q room =
      let (e, room') = try_push_refines q a room in
      rw (run_refines ops (try_push f q a).1 room', ← e)
  run_refines (ask_pop ∷ ops) q room =
      let (e, room') = try_pop_refines q (f.held q) refl room in
      rw (run_refines ops (try_pop f q).1 room', ← e)

  -- Whatever sequence of pushes and pops the hub makes from the start, it is answered as by a list
  -- of at most ten items, served in the order of arrival: a push is refused exactly when ten items
  -- wait, and a pop from an empty queue returns the item of the default constructor.
  pub processing_queue_refines :
      (ops : List Op) → run (processing_queue f) ops ≡ spec_run f.blank [] ops
  unfolding processing_queue
  processing_queue_refines ops =
      run_refines ops (f.make max_size) (f.room-make max_size) ∙ rw (f.held-make max_size)
