-- ===== src/Hub/Loop/Keeps.antt =====
-- The interval of polling and the buffer of the console, in the steps of `loop`.
use sensaurus.Prelude.{
  ℕ, ◌≡◌, ◌∙◌, refl, arith, Bool, not, ◌&&◌, ltb, ◌==◌, List, [], ◌∷◌, Option, none, some,
  Bool-cases, Option-cases, inl, inr, Text,
}
use sensaurus.CText.Number.{Printer}
use sensaurus.ProcessingQueue.{QueueItem, Fifo}
use sensaurus.Hub.Network.{since, Flavor, uses_aws, check_network}
use sensaurus.Hub.Control.{
  Control, Build, Doc, handle_incoming_message, type_bytes, process_byte_from_computer,
}
use sensaurus.Hub.Control.Reach.{IsSound, process_byte-IsSound, handle_incoming-IsSound}
use sensaurus.Hub.Loop.{
  with_network, ◌>>=◌, update_time, note_update, process_queue, poll_if_due, poll_devices,
  send_if_due, Pass, display, end_of_pass, take_input, handle_messages, check_connection,
  yield_to_tasks, check_button, loop_pass,
}

-- What a chain gives comes from what its first part gives.
pub bind-some :
    {A B : Type 0} (m : Option A) (k : A → Option B) (b : B)
    → (m >>= k) ≡ some b
    → (a : A) × (m ≡ some a) × (k a ≡ some b)
bind-some none k b e = absurd (ground (arith, e))
bind-some (some a) k b e = (a, refl, e)

-- Two states with the same interval of polling and the same buffer of the console.
abbrev pub Keeps : {Float Queue : Type 0} → Control Float Queue → Control Float Queue → Type 0
Keeps s t =
    (t.poll_interval ≡ s.poll_interval)
    × (t.console_message ≡ s.console_message)
    × (t.console_message_index ≡ s.console_message_index)

pub Keeps-IsSound :
    {Float Queue : Type 0} (s t : Control Float Queue) → Keeps s t → IsSound s → IsSound t
Keeps-IsSound s t (interval, message, index) h = record {
  slow = rw interval h.slow;
  fits = rw interval h.fits;
  console_size = rw message h.console_size;
  console_index = rw index h.console_index;
}

pub Keeps-trans :
    {Float Queue : Type 0} (s t u : Control Float Queue) → Keeps s t → Keeps t u → Keeps s u
Keeps-trans s t u (interval, message, index) (interval', message', index') =
    (interval' ∙ interval, message' ∙ message, index' ∙ index)

module _ {Float : Type 0} (f : Fifo QueueItem) (p : Printer) (dec : ℕ → Text) where
  process_queue-Keeps :
      (build : Build Float) (s t : Control Float f.Queue)
      → process_queue f dec build s ≡ some t
      → Keeps s t
  unfolding process_queue
  process_queue-Keeps build s t e = (ground (arith, e), ground (arith, e), ground (arith, e))

  pub update_time-Keeps :
      (updates : ℕ → Bool) (end epoch : ℕ) (s : Control Float f.Queue)
      (r : ℕ × Control Float f.Queue)
      → update_time f dec updates end epoch s ≡ some r
      → Keeps s r.1
  unfolding update_time note_update
  update_time-Keeps updates end epoch s r e =
      (ground (arith, e), ground (arith, e), ground (arith, e))

  poll_if_due-Keeps :
      (build : Build Float) (time : ℕ) (s t : Control Float f.Queue)
      → poll_if_due f dec build time s ≡ some t
      → Keeps s t
  unfolding poll_if_due
  poll_if_due-Keeps build time s t e = (ground (arith, e), ground (arith, e), ground (arith, e))

  poll_devices-Keeps :
      (build : Build Float) (time : ℕ) (s t : Control Float f.Queue)
      → poll_devices f dec build time s ≡ some t
      → Keeps s t
  unfolding poll_devices
  poll_devices-Keeps build time s t e = elim (Bool-cases (s.poll_interval == 0)) [
    | inl none_to_do ↦ (
      ground (arith, none_to_do, e),
      ground (arith, none_to_do, e),
      ground (arith, none_to_do, e),
    )
    | inr on ↦ elim (Option-cases (poll_if_due f dec build time s)) [
      | inl fault ↦ absurd (ground (arith, on, fault, e))
      | inr (u, polled) ↦
          let (interval, message, index) = poll_if_due-Keeps build time s u polled in
          (
            ground (arith, on, polled, e, interval),
            ground (arith, on, polled, e, message),
            ground (arith, on, polled, e, index),
          )
    ]
  ]

  send_if_due-Keeps : (time : ℕ) (s : Control Float f.Queue) → Keeps s (send_if_due f dec time s)
  unfolding send_if_due
  send_if_due-Keeps time s = (ground arith, ground arith, ground arith)

  display-Keeps : (e : Pass Float) (s : Control Float f.Queue) → Keeps s (display f dec e s)
  unfolding display
  display-Keeps e s = elim (Bool-cases s.config_mode) [
    | inl on ↦ rw (display, on) (ground arith, ground arith, ground arith)
    | inr off ↦ rw (display, off) (ground arith, ground arith, ground arith)
  ]

  end_of_pass-Keeps :
      (e : Pass Float) (s t : Control Float f.Queue) → end_of_pass f dec e s ≡ some t → Keeps s t
  unfolding end_of_pass
  end_of_pass-Keeps e s t h =
      let (interval, message, index) = display-Keeps e s in
      elim (Bool-cases (ltb 3600000 (since e.time s.last_time_update))) [
        | inr early ↦ (
          ground (arith, h, early, interval),
          ground (arith, h, early, message),
          ground (arith, h, early, index),
        )
        | inl due ↦
            elim (Option-cases
              (update_time f dec e.updates e.update_end e.epoch (display f dec e s))) [
                | inl fault ↦ absurd (ground (arith, due, fault, h))
                | inr (r, told) ↦
                    let (interval', message', index') =
                      update_time-Keeps e.updates e.update_end e.epoch (display f dec e s) r told in
                    (
                      ground (arith, due, told, h, interval, interval'),
                      ground (arith, due, told, h, message, message'),
                      ground (arith, due, told, h, index, index'),
                    )
              ]
      ]

  type_bytes-IsSound :
      (build : Build Float) (cs : List ℕ) (s t : Control Float f.Queue)
      → IsSound s
      → type_bytes f p dec build s cs ≡ some t
      → IsSound t
  unfolding type_bytes
  type_bytes-IsSound build [] s t h e = ground (arith, e, h.slow)
  type_bytes-IsSound build (c ∷ cs) s t h e =
      elim (Option-cases (process_byte_from_computer f p dec build s c)) [
        | inl fault ↦ absurd (ground (arith, fault))
        | inr (u, typed) ↦
            type_bytes-IsSound build cs u t (process_byte-IsSound f p dec build s u c h typed)
              (ground (arith, typed))
      ]

  handle_messages-IsSound :
      (build : Build Float) (read : Text → Option Text × Doc) (payloads : List (List ℕ))
      (s t : Control Float f.Queue)
      → IsSound s
      → handle_messages f dec p build read s payloads ≡ some t
      → IsSound t
  unfolding handle_messages
  handle_messages-IsSound build read [] s t h e = ground (arith, e, h.slow)
  handle_messages-IsSound build read (payload ∷ payloads) s t h e =
      let (u, handled, rest) =
        bind-some (handle_incoming_message f p dec build read s payload) _ t e in
      handle_messages-IsSound build read payloads u t
        (handle_incoming-IsSound f p dec build read s u payload h handled) rest

  check_connection-IsSound :
      (flavor : Flavor) (e : Pass Float) (s t : Control Float f.Queue)
      → IsSound s
      → check_connection f dec p flavor e s ≡ some t
      → IsSound t
  unfolding check_connection
  check_connection-IsSound flavor e s t h done = elim (Bool-cases (uses_aws flavor)) [
    | inl aws ↦
        Keeps-IsSound s t
          (ground (arith, aws, done), ground (arith, aws, done), ground (arith, aws, done)) h
    | inr plain ↦
        let (u, handled, rest) =
          bind-some (handle_messages f dec p e.build e.deserialize s e.messages)
            (λ u. check_network u.hub.config e.sight u.network >>= λ net.
              some (with_network net.0 net.1 u))
            t (ground (arith, plain, done)) in
        let (net, checked, told) =
          bind-some (check_network u.hub.config e.sight u.network)
            (λ net. some (with_network net.0 net.1 u)) t rest in
        Keeps-IsSound u t (ground (arith, told), ground (arith, told), ground (arith, told))
          (handle_messages-IsSound e.build e.deserialize e.messages s u h handled)
  ]

  yield_to_tasks-IsSound :
      (flavor : Flavor) (e : Pass Float) (s t : Control Float f.Queue)
      → IsSound s
      → yield_to_tasks f dec p flavor e s ≡ some t
      → IsSound t
  unfolding yield_to_tasks
  yield_to_tasks-IsSound flavor e s t h done = elim (Bool-cases (uses_aws flavor)) [
    | inl aws ↦
        handle_messages-IsSound e.build e.deserialize e.messages s t h (ground (arith, aws, done))
    | inr plain ↦
        Keeps-IsSound s t
          (ground (arith, plain, done), ground (arith, plain, done), ground (arith, plain, done)) h
  ]

  take_input-IsSound :
      (flavor : Flavor) (e : Pass Float) (s t : Control Float f.Queue)
      → IsSound s
      → take_input f dec p flavor e s ≡ some t
      → IsSound t
  unfolding take_input
  take_input-IsSound flavor e s t h done =
      let (u, queued, rest) = bind-some (process_queue f dec e.build s) _ t done in
      let (v, checked, rest') = bind-some (check_connection f dec p flavor e u) _ t rest in
      let (w, typed, yielded) = bind-some (type_bytes f p dec e.build v e.typed) _ t rest' in
      yield_to_tasks-IsSound flavor e w t
        (type_bytes-IsSound e.build e.typed v w
          (check_connection-IsSound flavor e u v
            (Keeps-IsSound s u (process_queue-Keeps e.build s u queued) h) checked)
          typed)
        yielded

  check_button-Keeps :
      (e : Pass Float) (s : Control Float f.Queue) (r : Bool × Control Float f.Queue)
      → check_button f dec e s ≡ some r
      → Keeps s r.1
  unfolding check_button
  check_button-Keeps e s r done = elim (Bool-cases (e.button_low && not s.config_mode)) [
    | inl pressed ↦ (
      ground (arith, pressed, done),
      ground (arith, pressed, done),
      ground (arith, pressed, done),
    )
    | inr left ↦ elim (Option-cases (end_of_pass f dec e s)) [
      | inl fault ↦ absurd (ground (arith, left, fault, done))
      | inr (t, ended) ↦
          let (interval, message, index) = end_of_pass-Keeps e s t ended in
          (
            ground (arith, left, ended, done, interval),
            ground (arith, left, ended, done, message),
            ground (arith, left, ended, done, index),
          )
    ]
  ]

  pub loop_pass-IsSound :
      (flavor : Flavor) (e : Pass Float) (s : Control Float f.Queue)
      (r : Bool × Control Float f.Queue)
      → IsSound s
      → loop_pass f dec p flavor e s ≡ some r
      → IsSound r.1
  unfolding loop_pass
  loop_pass-IsSound flavor e s r h done =
      let (t, heard, rest) = bind-some (take_input f dec p flavor e s) _ r done in
      let t-IsSound = take_input-IsSound flavor e s t h heard in
      elim (Bool-cases (t.sw_reboot == 0)) [
        | inr asked ↦
            Keeps-IsSound t r.1
              (
                ground (arith, asked, rest),
                ground (arith, asked, rest),
                ground (arith, asked, rest),
              )
              t-IsSound
        | inl not_asked ↦
            let (u, polled, rest') =
              bind-some (poll_devices f dec e.build e.poll_time t)
                (λ u. check_button f dec e (send_if_due f dec e.time u)) r
                (ground (arith, not_asked, rest)) in
            let sent = send_if_due f dec e.time u in
            Keeps-IsSound sent r.1 (check_button-Keeps e sent r rest') (
              Keeps-IsSound u sent (send_if_due-Keeps e.time u)
                (Keeps-IsSound t u (poll_devices-Keeps e.build e.poll_time t u polled) t-IsSound))
      ]
