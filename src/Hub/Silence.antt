-- ===== src/Hub/Silence.antt =====
-- A device that no longer answers.
use sensaurus.Prelude.{
  ℕ, zero, suc, ◌+◌, ◌<◌, ◌≡◌, ◌∙◌, arith, true, false, ◌&&◌, List, [], ◌∷◌, some, get_elem?, ltb,
  leb, if◌then◌else◌, Bool-cases, inl, inr, Text,
}
use sensaurus.SensaurDevice.{
  Device, no_response, reset_error_count, set_connected, reset_components,
}
use sensaurus.Hub.{Hub, with_device}
use sensaurus.Hub.Receive.{no_reception, receive, handle_reception, wait_for_response, drop_silent}
use sensaurus.Hub.Exchange.{at-with_device}

receive_silent :
    (timeout c t : ℕ) (reads : List (ℕ × ℕ))
    → c < 32
    → receive timeout ((c, t) ∷ reads) no_reception ≡ no_reception
unfolding receive
receive_silent timeout c t reads h =
    let plain : ltb 127 c ≡ false = ground arith in
    let control : ltb c 32 ≡ true = ground arith in rw (receive, plain, control)

module _ {Float : Type 0} where
  drop_silent_lem :
      (k i : ℕ) (ds : List (Device Float)) (d : Device Float)
      → get_elem? ds i ≡ some d
      → get_elem? (drop_silent k ds).0 i
        ≡ some (
            if d.connected && leb 2 d.no_response_count
            then record d { connected = false; component_count = 0 }
            else d)
  unfolding drop_silent set_connected reset_components
  drop_silent_lem k i [] d e = absurd (ground arith)
  drop_silent_lem k zero (x ∷ ds) d e =
      let same : x ≡ d = ground arith in
      elim (Bool-cases (d.connected && leb 2 d.no_response_count)) [
        | inl gone ↦ rw (same, drop_silent, gone)
        | inr there ↦ rw (same, drop_silent, there)
      ]
  drop_silent_lem k (suc i) (x ∷ ds) d e =
      elim (Bool-cases (x.connected && leb 2 x.no_response_count)) [
        | inl gone ↦ rw (drop_silent, gone) (drop_silent_lem (k + 1) i ds d e)
        | inr there ↦ rw (drop_silent, there) (drop_silent_lem (k + 1) i ds d e)
      ]

  abbrev missed : Device Float → Device Float
  missed d = record d { error_count = 0; no_response_count = d.no_response_count + 1 }

  wait_silent :
      (dec : ℕ → Text) (s : Hub Float) (time i c t : ℕ) (reads : List (ℕ × ℕ)) (d : Device Float)
      → c < 32
      → get_elem? s.devices i ≡ some d
      → (s' : Hub Float) × (wait_for_response dec s time i ((c, t) ∷ reads) ≡ some s')
        × (get_elem? s'.devices i ≡ some (missed d))
  unfolding wait_for_response handle_reception reset_error_count no_response
  wait_silent dec s time i c t reads d h found = (
    with_device (with_device s i reset_error_count) i no_response,
    rw (wait_for_response, receive_silent s.config.response_timeout c t reads h),
    at-with_device (with_device s i reset_error_count) i (reset_error_count d) no_response
        (at-with_device s i d reset_error_count found),
  )

  -- A connected device that answers two polls in a row with nothing, which the line reads as NUL,
  -- or with a control character first, is disconnected by the check that follows, and has no
  -- components any more.
  pub silence_disconnects :
      (dec : ℕ → Text) (s : Hub Float) (time time' i c c' t t' : ℕ) (reads reads' : List (ℕ × ℕ))
      (d : Device Float)
      → c < 32
      → c' < 32
      → d.connected ≡ true
      → get_elem? s.devices i ≡ some d
      → (s' : Hub Float) × (s'' : Hub Float) × (wait_for_response dec s time i ((c, t) ∷ reads)
          ≡ some s')
        × (wait_for_response dec s' time' i ((c', t') ∷ reads') ≡ some s'')
        × (get_elem? (drop_silent 0 s''.devices).0 i
            ≡ some (record d {
              error_count = 0;
              no_response_count = d.no_response_count + 2;
              connected = false;
              component_count = 0;
            }))
  silence_disconnects dec s time time' i c c' t t' reads reads' d h h' connected found =
      let (s', once, first) = wait_silent dec s time i c t reads d h found in
      let (s'', again, second) = wait_silent dec s' time' i c' t' reads' (missed d) h' first in
      let gone : d.connected && leb 2 (d.no_response_count + 1 + 1) ≡ true =
        rw connected (ground arith) in
      let counted : d.no_response_count + 1 + 1 ≡ d.no_response_count + 2 = omega arith in
      (
        s',
        s'',
        once,
        again,
        drop_silent_lem 0 i s''.devices (missed (missed d)) second ∙ rw (gone, counted),
      )
