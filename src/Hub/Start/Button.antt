-- ===== src/Hub/Start/Button.antt =====
-- What a press of the button leads to, over a restart.
use sensaurus.Prelude.{
  ℕ, ◌+◌, ◌≡◌, ◌≢◌, ◌∙◌, refl, arith, true, false, not, ◌&&◌, ◌==◌, [], ◌∷◌, some, u32, ◌^◌, ◌<◌,
  ◌++◌, Text, codes,
}
use sensaurus.CText.Number.{Printer}
use sensaurus.Config.{Settings}
use sensaurus.ProcessingQueue.{QueueItem, Fifo}
use sensaurus.Hub.{start_ble, console, restart}
use sensaurus.Hub.Control.{Control, tell, say}
use sensaurus.Hub.Loop.{poll_devices, send_if_due, Pass, take_input, check_button, loop_pass}
use sensaurus.Hub.Network.{Flavor, has_ble}
use sensaurus.Hub.Start.{ble_mode_on, Boot, ble_mode_at, initial, setup_steps, setup}

module _ {Float : Type 0} (f : Fifo QueueItem) (p : Printer) (dec : ℕ → Text) where
  check_button-pressed :
      (e : Pass Float) (s : Control Float f.Queue)
      → e.button_low ≡ true
      → s.config_mode ≡ false
      → (t : Control Float f.Queue) × (check_button f dec e s ≡ some (true, t))
        × (t.ble_mode ≡ u32 (s.ble_mode + 1))
  unfolding check_button
  check_button-pressed e s low fresh =
      let on : e.button_low && not s.config_mode ≡ true = ground (arith, low, fresh) in
      (
        record (tell s (
            say (codes "Button pressed.")
            ∷ console (codes "bleMode=" ++ dec (u32 (s.ble_mode + 1)) ++ 10 ∷ [])
            ∷ restart
            ∷ [])) { config_mode = true; ble_mode = u32 (s.ble_mode + 1) },
        rw (check_button, on),
        refl,
      )

  loop_pass-polled :
      (flavor : Flavor) (e : Pass Float) (s u v : Control Float f.Queue)
      → take_input f dec p flavor e s ≡ some u
      → u.sw_reboot ≡ 0
      → poll_devices f dec e.build e.poll_time u ≡ some v
      → loop_pass f dec p flavor e s ≡ check_button f dec e (send_if_due f dec e.time v)
  unfolding loop_pass
  loop_pass-polled flavor e s u v heard none_asked polled =
      let going : (u.sw_reboot == 0) ≡ true = ground (arith, none_asked) in
      rw (loop_pass, heard, polled, going)

  send_if_due-keeps :
      (time : ℕ) (s : Control Float f.Queue)
      → ((send_if_due f dec time s).config_mode ≡ s.config_mode)
        × ((send_if_due f dec time s).ble_mode ≡ s.ble_mode)
  unfolding send_if_due
  send_if_due-keeps time s = (ground arith, ground arith)

  setup-kept :
      (flavor : Flavor) (zero_value : Float) (d : Settings) (e : Boot)
      → has_ble flavor ≡ true
      → e.software_reset ≡ true
      → e.kept_mode ≢ 0
      → (s : Control Float f.Queue) × (setup f dec flavor zero_value d e ≡ some (ble_mode_on, s))
  unfolding setup setup_steps initial ble_mode_at
  setup-kept flavor zero_value d e ble reset kept =
      let on : has_ble flavor && not (ble_mode_at flavor e == 0) ≡ true =
        ground (arith, ble, reset, kept) in
      (tell (initial f zero_value flavor d e) (start_ble ∷ []), rw (setup_steps, on))

  -- A press of the button in a pass of `loop` that is not in configuration mode and not asked to
  -- restart otherwise, whatever it has heard and polled by then, restarts the hub, and a build with
  -- BLE is then in BLE mode, whether the button is still pressed or not, if `bleMode` was no negative
  -- number and not the greatest `int`.
  pub button_starts_ble :
      (flavor : Flavor) (e : Pass Float) (s u v : Control Float f.Queue)
      → take_input f dec p flavor e s ≡ some u
      → u.sw_reboot ≡ 0
      → poll_devices f dec e.build e.poll_time u ≡ some v
      → v.config_mode ≡ false
      → v.ble_mode + 1 < 2 ^ 31
      → e.button_low ≡ true
      → has_ble flavor ≡ true
      → (t : Control Float f.Queue) × (loop_pass f dec p flavor e s ≡ some (true, t))
        × ((zero_value : Float) (d : Settings) (boot : Boot)
            → boot.software_reset ≡ true
            → boot.kept_mode ≡ t.ble_mode
            → (r : Control Float f.Queue) × (setup f dec flavor zero_value d boot
                ≡ some (ble_mode_on, r)))
  button_starts_ble flavor e s u v heard none_asked polled fresh small low ble =
      let (config_kept, mode_kept) = send_if_due-keeps e.time v in
      let (t, pressed, mode) =
        check_button-pressed e (send_if_due f dec e.time v) low (config_kept ∙ fresh) in
      (
        t,
        loop_pass-polled flavor e s u v heard none_asked polled ∙ pressed,
        λ zero_value d boot reset kept.
            setup-kept flavor zero_value d boot ble reset
              (ground (arith, kept, mode, mode_kept, small)),
      )
