-- ===== src/Hub/Loop/Timers.antt =====
-- The timers of `loop`, on the 32-bit count of milliseconds.
use sensaurus.Prelude.{
  ℕ, ◌+◌, ◌^◌, ◌<◌, ◌≡◌, ◌≢◌, arith, false, [], ◌∷◌, some, ltb, ◌==◌, if◌then◌else◌, Bool-cases,
  inl, inr, Text, u32,
}
use sensaurus.ProcessingQueue.{QueueItem, Fifo}
use sensaurus.Hub.{Hub, send_sensor_values, emit}
use sensaurus.Hub.Network.{since}
use sensaurus.Hub.Network.Spacing.{since-later}
use sensaurus.Hub.Control.{Control, Build}
use sensaurus.Hub.Loop.{next_time, poll_if_due, send_if_due}

module _ {Float : Type 0} (f : Fifo QueueItem) (dec : ℕ → Text) (s : Control Float f.Queue)
    (last wait : ℕ) (less : wait < 2 ^ 32) (running : u32 last ≢ 0) where
  -- The last poll was counted for the moment `last`, in milliseconds since the start, whose count of
  -- 32 bits is not 0 (a count of 0 stands for no poll so far), and it is now `wait` milliseconds
  -- later, fewer than 2 ^ 32. The polling succeeds. Then the devices are polled exactly if `wait` is
  -- more than the interval, and the poll is counted for the moment one interval after the last, so
  -- that polls do not drift, nor run ahead of the time. The count of milliseconds may wrap around
  -- between the two.
  pub poll_if_due_lem :
      (build : Build Float) (hub : Hub Float)
      → s.last_poll_time ≡ u32 last
      → build.do_polling s.hub ≡ some hub
      → poll_if_due f dec build (u32 (last + wait)) s
        ≡ some (
            if ltb s.poll_interval wait
            then record s { hub = hub; last_poll_time = u32 (last + s.poll_interval) }
            else s)
  unfolding poll_if_due next_time
  poll_if_due_lem build hub before polled =
      let passed : since (u32 (last + wait)) s.last_poll_time ≡ wait =
        rw before (since-later last wait less) in
      let started : (s.last_poll_time == 0) ≡ false = ground (arith, before, running) in
      let moved : u32 (s.last_poll_time + s.poll_interval) ≡ u32 (last + s.poll_interval) =
        rw before (omega arith) in
      elim (Bool-cases (ltb s.poll_interval wait)) [
        | inl due ↦ rw (poll_if_due, passed, polled, started, moved, due)
        | inr early ↦ rw (poll_if_due, passed, early)
      ]

  -- The values are sent likewise, if there is an interval for sending at all.
  pub send_if_due_lem :
      s.last_send_time ≡ u32 last
      → s.send_interval ≢ 0
      → send_if_due f dec (u32 (last + wait)) s ≡ (
          if ltb s.send_interval wait
          then record s {
            hub = emit s.hub (send_sensor_values (u32 (last + wait)) ∷ []);
            last_send_time = u32 (last + s.send_interval);
          }
          else s)
  unfolding send_if_due next_time
  send_if_due_lem before sending =
      let passed : since (u32 (last + wait)) s.last_send_time ≡ wait =
        rw before (since-later last wait less) in
      let started : (s.last_send_time == 0) ≡ false = ground (arith, before, running) in
      let on : (s.send_interval == 0) ≡ false = ground (arith, sending) in
      let moved : u32 (s.last_send_time + s.send_interval) ≡ u32 (last + s.send_interval) =
        rw before (omega arith) in
      elim (Bool-cases (ltb s.send_interval wait)) [
        | inl due ↦ rw (send_if_due, on, passed, started, moved, due)
        | inr early ↦ rw (send_if_due, on, passed, early)
      ]
