-- ===== src/Hub/Ota/Progress.antt =====
-- The percentage that is told during an update over the air.
use sensaurus.Prelude.{ℕ, ◌/◌, ◌<◌, ◌≤◌, ◌≡◌, arith, true, false, none, some, ◌==◌}
use native.Mathlib.Nat.{div-lt_iff_lt-mul, le-div_iff_mul-le}
use sensaurus.Hub.Ota.{percentage}

-- For an image of 10,000 bytes or more, the percentage told is at most 100, and 100 once all of it
-- has come.
pub percentage_lem :
    (progress total : ℕ)
    → 10000 ≤ total
    → progress ≤ total
    → (n : ℕ) × (percentage progress total ≡ some n) × (n ≤ 100) × (progress ≡ total → n ≡ 100)
unfolding percentage
percentage_lem progress total large within =
    let hundredth = total / 100 in
    let pos : 0 < total / 100 = omega arith in
    let some_there : (total / 100 == 0) ≡ false = ground (arith, pos) in
    let below : progress / (total / 100) < 101 = (div-lt_iff_lt-mul pos).1 (omega arith) in
    (
      progress / (total / 100),
      rw (percentage, some_there),
      omega (arith, below),
      λ all.
          let reached : 100 ≤ progress / (total / 100) = (le-div_iff_mul-le pos).1 (omega arith) in
          omega (arith, below, reached),
    )

-- An image of fewer than 100 bytes makes the hub divide by 0.
pub percentage_small : (progress total : ℕ) → total < 100 → percentage progress total ≡ none
unfolding percentage
percentage_small progress total small =
    let none_there : (total / 100 == 0) ≡ true = ground arith in rw (percentage, none_there)
