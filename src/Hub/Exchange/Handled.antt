-- ===== src/Hub/Exchange/Handled.antt =====
-- What the hub makes of a line of a device, before the line is put together from bytes.
use sensaurus.Prelude.{
  ℕ, ◌+◌, ◌≡◌, refl, ap, ◌∙◌, Bool, true, false, [], ◌∷◌, some, set, get_elem?, get_elem?-lt,
  get_elem?-set_self, ◌==◌, Bool-cases, inl, inr, Text,
}
use sensaurus.CText.{c_str}
use sensaurus.Sensaur.{esp32, checksum_ok}
use sensaurus.SensaurDevice.{Device, responded, reset_error_count, inc_error_count}
use sensaurus.Hub.{
  Hub, with_device, emit, set_last_error, take_message, echo_message, accept_message,
  refuse_message, process_message_from_device, led, send_device_info, err_checksum,
}
use sensaurus.Hub.Receive.{Reception, reconnect, handle_reception}

module _ {Float : Type 0} where
  pub with_device-at :
      (s : Hub Float) (i : ℕ) (d : Device Float) (f : Device Float → Device Float)
      → get_elem? s.devices i ≡ some d
      → with_device s i f ≡ record s { devices = set s.devices i (f d) }
  unfolding with_device
  with_device-at s i d f e = rw (with_device, e)

  pub at-with_device :
      (s : Hub Float) (i : ℕ) (d : Device Float) (f : Device Float → Device Float)
      → get_elem? s.devices i ≡ some d
      → get_elem? (with_device s i f).devices i ≡ some (f d)
  at-with_device s i d f e =
      rw (with_device-at s i d f e)
        (get_elem?-set_self s.devices i (f d) (get_elem?-lt s.devices i d e))

  accept_message_lem :
      (s : Hub Float) (i : ℕ) (text : Text) (d d' : Device Float) (described : Bool)
      → get_elem? s.devices i ≡ some d
      → take_message d text ≡ some (d', described)
      → (s' : Hub Float) × (accept_message s i text ≡ some s')
        × (s'.devices ≡ set s.devices i d')
        × (s'.err_count ≡ s.err_count)
  unfolding accept_message emit
  accept_message_lem s i text d d' true found taken = (
    emit (record s { devices = set s.devices i d' }) (led i true ∷ send_device_info ∷ []),
    rw (accept_message, found, taken),
    refl,
    refl,
  )
  accept_message_lem s i text d d' false found taken =
      (record s { devices = set s.devices i d' }, rw (accept_message, found, taken), refl, refl)

  -- What the hub knows of the device that answers, before it looks at the answer.
  abbrev pub heard : Device Float → Device Float
  heard d = reconnect (reset_error_count d)

  -- The devices before the answer is looked at.
  pub heard_devices :
      (s : Hub Float) (i : ℕ) (d : Device Float)
      → get_elem? s.devices i ≡ some d
      → let known = with_device (with_device s i reset_error_count) i reconnect in
        (get_elem? known.devices i ≡ some (heard d)) × (known.err_count ≡ s.err_count)
  heard_devices s i d found =
      let calmed = at-with_device s i d reset_error_count found in
      (
        at-with_device (with_device s i reset_error_count) i (reset_error_count d) reconnect calmed,
        ap (λ h. h.err_count)
              (with_device-at (with_device s i reset_error_count) i (reset_error_count d) reconnect
                calmed)
            ∙ ap (λ h. h.err_count) (with_device-at s i d reset_error_count found),
      )

  module _ (dec : ℕ → Text) where
    echo_message_lem :
        (s : Hub Float) (i : ℕ) (m : Text)
        → ((echo_message dec s i m).devices ≡ s.devices)
          × ((echo_message dec s i m).err_count ≡ s.err_count)
    unfolding echo_message emit
    echo_message_lem s i m = elim (Bool-cases s.config.console_enabled) [
      | inl on ↦ rw on (refl, refl)
      | inr off ↦ rw off (refl, refl)
    ]

    pub process_good :
        (s : Hub Float) (time i : ℕ) (m text : Text) (d d' : Device Float) (described : Bool)
        → checksum_ok esp32 m true ≡ (true, text)
        → get_elem? s.devices i ≡ some d
        → take_message d text ≡ some (d', described)
        → (s' : Hub Float) × (process_message_from_device dec s time i m ≡ some s')
          × (s'.devices ≡ set s.devices i d')
          × (s'.err_count ≡ s.err_count)
    unfolding process_message_from_device
    process_good s time i m text d d' described good found taken =
        let (same, count) = echo_message_lem s i m in
        let (s', done, devices, counted) =
          accept_message_lem (echo_message dec s i m) i text d d' described (rw same found) taken in
        (
          s',
          rw (process_message_from_device, good) done,
          devices ∙ ap (λ ds. set ds i d') same,
          counted ∙ count,
        )

    pub process_garbled :
        (s : Hub Float) (time i : ℕ) (m : Text) (d : Device Float)
        → (checksum_ok esp32 m true).0 ≡ false
        → get_elem? s.devices i ≡ some d
        → (s' : Hub Float) × (process_message_from_device dec s time i m ≡ some s')
          × (s'.devices ≡ set s.devices i (inc_error_count d).0)
          × (s'.err_count ≡ s.err_count + 1)
    unfolding process_message_from_device refuse_message set_last_error with_device
    process_garbled s time i m d bad found =
        let (same, count) = echo_message_lem s i m in
        let echoed = echo_message dec s i m in
        let found' : get_elem? echoed.devices i ≡ some d = rw same found in
        (
          refuse_message echoed time i,
          rw (process_message_from_device, bad),
          rw
              (with_device-at (set_last_error echoed time err_checksum) i d
                (λ e. (inc_error_count e).0) found')
              (ap (λ ds. set ds i (inc_error_count d).0) same),
          rw
              (with_device-at (set_last_error echoed time err_checksum) i d
                (λ e. (inc_error_count e).0) found')
              (ap (λ n. n + 1) count),
        )

    pub handle_reception_lem :
        (s s' : Hub Float) (time i : ℕ) (r : Reception) (d d' : Device Float) (m : Text)
        → r.non_ascii ≡ false
        → (r.index == 0) ≡ false
        → c_str (set r.message r.index 0) ≡ m
        → process_message_from_device dec
            (with_device (with_device s i reset_error_count) i reconnect)
            time
            i
            m
          ≡ some s'
        → get_elem? s'.devices i ≡ some d'
        → (handle_reception dec s time i r ≡ some (with_device s' i responded))
          × (get_elem? (with_device s' i responded).devices i ≡ some (responded d'))
    unfolding handle_reception
    handle_reception_lem s s' time i r d d' m ascii pos text done found =
        (rw (handle_reception, ascii, pos, text, done), at-with_device s' i d' responded found)
