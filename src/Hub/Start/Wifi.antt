-- ===== src/Hub/Start/Wifi.antt =====
-- The loop of `setup` that connects to WiFi ends, and the events of WiFi keep the topic names.
use sensaurus.Prelude.{
  ℕ, zero, suc, ◌+◌, ◌<◌, ◌≤◌, ◌≡◌, refl, ap, ◌∙◌, ◌-◌, ◌==◌, arith, Bool, true, false, List, [],
  ◌∷◌, some, leb, Bool-cases, inl, inr, ◌⊎◌,
}
use sensaurus.Config.{Config}
use sensaurus.Hub.Network.{Network, WifiEvent, wifi_event}
use sensaurus.Hub.Network.Reconnect.{TopicsFit}
use sensaurus.Hub.Loop.Time.{all_failed}
use sensaurus.Hub.Start.{wifi_rounds, await_status, wifi_events_seen}

-- Whether the `k`-th of the tries from `from` to `to` succeeds, for some `k`, or none does.
abbrev pub Tried : (ℕ → Bool) → ℕ → ℕ → Bool → Type 0
Tried tries from to done =
    ((done ≡ true) × (k : ℕ) × (k ≤ to) × (tries k ≡ true))
    ⊎ ((done ≡ false) × ((k : ℕ) → from ≤ k → k ≤ to → tries k ≡ false))

Tried-failed :
    (begins : ℕ → Bool) (retries : ℕ) (done : Bool)
    → begins retries ≡ false
    → Tried begins (retries + 1) 3 done
    → Tried begins retries 3 done
Tried-failed begins retries done first (inl right) = inl right
Tried-failed begins retries done first (inr (failure, others)) =
    inr (failure, all_failed begins 3 retries first others)

pub wifi_rounds-Tried :
    (begins : ℕ → Bool) (fuel retries : ℕ)
    → fuel + retries ≡ 4
    → 0 < fuel
    → (done : Bool) × (wifi_rounds begins fuel retries ≡ some done) × Tried begins retries 3 done
unfolding wifi_rounds
wifi_rounds-Tried begins zero retries e h = elim h [ ]
wifi_rounds-Tried begins (suc fuel) retries e h = elim (Bool-cases (begins retries)) [
  | inl done ↦ (true, rw done, inl (refl, retries, omega arith, done))
  | inr failed ↦ elim (Bool-cases (leb 3 retries)) [
    | inl last ↦ (
      false,
      rw (failed, last),
      inr (
        refl,
        all_failed begins 3 retries failed (λ k from to. absurd (ground (arith, last, from, to))),
      ),
    )
    | inr more ↦
        let (done, ends, tried) =
          wifi_rounds-Tried begins fuel (retries + 1) (omega arith) (ground arith) in
        (done, rw (failed, more) ends, Tried-failed begins retries done failed tried)
  ]
]

-- Some try of the first `last + 1` succeeds.
abbrev pub Succeeds : (ℕ → Bool) → ℕ → Type 0
Succeeds tries last = (k : ℕ) × (k ≤ last) × (tries k ≡ true)

wifi_event-TopicsFit :
    (config : Config) (time : ℕ) (s : Network) (event : WifiEvent)
    → TopicsFit config s
    → TopicsFit config (wifi_event time s event)
unfolding wifi_event
wifi_event-TopicsFit config time s event h =
    ground (arith, h.command_size, h.actuators_size, h.command_fits, h.actuators_fit)

pub wifi_events_seen-TopicsFit :
    (config : Config) (events : List (ℕ × WifiEvent)) (s : Network)
    → TopicsFit config s
    → TopicsFit config (wifi_events_seen events s)
unfolding wifi_events_seen
wifi_events_seen-TopicsFit config [] s h = h
wifi_events_seen-TopicsFit config (event ∷ events) s h =
    wifi_events_seen-TopicsFit config events (wifi_event event.0 s event.1)
      (wifi_event-TopicsFit config event.0 s event.1 h)

-- The wait for the status of WiFi ends, if the status is connected at some time for which there is
-- fuel.
pub await_status-ends :
    (statuses : ℕ → Bool) (fuel k n : ℕ)
    → statuses (k + n) ≡ true
    → n < fuel
    → (asked : ℕ) × (await_status statuses fuel k ≡ some asked)
unfolding await_status
await_status-ends statuses zero k n there room = absurd (omega arith)
await_status-ends statuses (suc fuel) k n there room = elim (Bool-cases (statuses k)) [
  | inl now ↦ (k + 1, rw (await_status, now))
  | inr later ↦ elim (Bool-cases (n == 0)) [
    | inl first ↦
        let here : k + n ≡ k = ground (arith, first) in
        absurd (ground (arith, ap statuses here, there, later))
    | inr some_more ↦
        let next : k + 1 + (n - 1) ≡ k + n = ground (arith, some_more) in
        let (asked, ends) =
          await_status-ends statuses fuel (k + 1) (n - 1) (ap statuses next ∙ there)
            (ground (arith, some_more)) in
        (asked, rw (await_status, later) ends)
  ]
]
