-- ===== src/Hub/Loop/Time.antt =====
-- `updateTime` ends.
use sensaurus.Prelude.{
  ℕ, zero, suc, ◌+◌, ◌<◌, ◌≤◌, ◌≡◌, refl, arith, Bool, true, false, some, ltb, Bool-cases, inl, inr,
  ◌⊎◌, Text, dec_lt,
}
use sensaurus.ProcessingQueue.{QueueItem, Fifo}
use sensaurus.Hub.Control.{Control}
use sensaurus.Hub.{emit}
use sensaurus.Hub.Loop.{update_rounds, note_update, update_time}

-- The result of updates from the `counter`-th on: 0 and one that succeeds, or 1 and none that does.
abbrev pub Tells : (ℕ → Bool) → ℕ → ℕ → Type 0
Tells updates counter rc =
    ((rc ≡ 0) × (k : ℕ) × (k ≤ 10) × (updates k ≡ true))
    ⊎ ((rc ≡ 1) × ((k : ℕ) → counter ≤ k → k ≤ 10 → updates k ≡ false))

pub all_failed :
    (updates : ℕ → Bool) (last counter : ℕ)
    → updates counter ≡ false
    → ((k : ℕ) → counter + 1 ≤ k → k ≤ last → updates k ≡ false)
    → (k : ℕ) → counter ≤ k
    → k ≤ last
    → updates k ≡ false
all_failed updates last counter first others k from to = elim (dec_lt counter k) [
  | yes later ↦ others k (omega arith) to
  | no same ↦ let here : k ≡ counter = omega arith in rw here first
]

Tells-failed :
    (updates : ℕ → Bool) (counter rc : ℕ)
    → updates counter ≡ false
    → Tells updates (counter + 1) rc
    → Tells updates counter rc
Tells-failed updates counter rc first (inl told) = inl told
Tells-failed updates counter rc first (inr (failure, others)) =
    inr (failure, all_failed updates 10 counter first others)

update_rounds_ends :
    (updates : ℕ → Bool) (fuel counter : ℕ)
    → fuel + counter ≡ 11
    → 0 < fuel
    → (rc : ℕ) × (update_rounds updates fuel counter ≡ some rc) × Tells updates counter rc
unfolding update_rounds
update_rounds_ends updates zero counter e h = elim h [ ]
update_rounds_ends updates (suc fuel) counter e h = elim (Bool-cases (updates counter)) [
  | inl done ↦ (0, rw done, inl (refl, counter, omega arith, done))
  | inr failed ↦ elim (Bool-cases (ltb 10 (counter + 1))) [
    | inl last ↦ (
      1,
      rw (failed, last),
      inr (
        refl,
        all_failed updates 10 counter failed (λ k from to. absurd (ground (arith, last, from, to))),
      ),
    )
    | inr more ↦
        let (rc, ends, tells) =
          update_rounds_ends updates fuel (counter + 1) (omega arith) (ground arith) in
        (rc, rw (failed, more) ends, Tells-failed updates counter rc failed tells)
  ]
]

note_update-times :
    {Float Queue : Type 0} (dec : ℕ → Text) (end epoch : ℕ) (s : Control Float Queue)
    → ((note_update dec end epoch s).last_time_update ≡ end)
      × ((note_update dec end epoch s).last_epoch_seconds ≡ epoch)
unfolding note_update
note_update-times dec end epoch s = elim (Bool-cases s.hub.config.console_enabled) [
  | inl on ↦ rw on (refl, refl)
  | inr off ↦ rw off (refl, refl)
]

-- The update of the time always ends, whatever the time server answers: with 0 if one of at most
-- eleven updates succeeds, with 1 if all eleven fail. Either way the hub takes the time of its end
-- for that of the last update, so that the next one follows an hour later.
pub update_time_ends :
    {Float : Type 0} (f : Fifo QueueItem) (dec : ℕ → Text) (updates : ℕ → Bool) (end epoch : ℕ)
    (s : Control Float f.Queue)
    → (rc : ℕ) × (s' : Control Float f.Queue) × (update_time f dec updates end epoch s
        ≡ some (rc, s'))
      × Tells updates 0 rc
      × (s'.last_time_update ≡ end)
      × (s'.last_epoch_seconds ≡ epoch)
unfolding update_time
update_time_ends f dec updates end epoch s =
    let (rc, ends, tells) = update_rounds_ends updates 11 0 (omega arith) (omega arith) in
    (
      rc,
      note_update dec end epoch s,
      rw (update_time, ends),
      tells,
      (note_update-times dec end epoch s).0,
      (note_update-times dec end epoch s).1,
    )

-- An update of the time leaves the connections and the configuration as they are.
pub update_time_keeps :
    {Float : Type 0} (f : Fifo QueueItem) (dec : ℕ → Text) (updates : ℕ → Bool) (end epoch rc : ℕ)
    (s s' : Control Float f.Queue)
    → update_time f dec updates end epoch s ≡ some (rc, s')
    → (s'.network ≡ s.network) × (s'.hub.config ≡ s.hub.config)
unfolding update_time note_update emit
update_time_keeps f dec updates end epoch rc s s' e = (ground (arith, e), ground (arith, e))
