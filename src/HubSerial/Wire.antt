-- ===== src/HubSerial/Wire.antt =====
-- What one end of the line writes, the other end reads. Changing and reading the pin take no time,
-- and both ends count cycles at the same rate.
use sensaurus.Prelude.{
  ℕ, zero, suc, ◌+◌, ◌*◌, ◌/◌, ◌^◌, ◌<◌, ◌≤◌, ◌≡◌, arith, Bool, true, false, List, [], ◌∷◌, ◌++◌,
  ◌==◌, if◌then◌else◌, All, ltb, bit_or, bit_and,
}
use sensaurus.HubSerial.{
  PinEvent, level, wait_until, mode_output, mode_input, wait_start, HubSerial, store,
  busy_read_byte, read_byte,
}

-- The level of the pin, which is `now` at first, at a number of cycles after the start.
abbrev pub level_at : List PinEvent → Bool → ℕ → Bool
level_at [] now t = now
level_at (level b ∷ es) now t = level_at es b t
level_at (wait_until w ∷ es) now t = let later = level_at es now t in if ltb t w then now else later
level_at (mode_input ∷ es) now t = level_at es now t
level_at (mode_output ∷ es) now t = level_at es now t

-- The lowest `n` bits of a byte, each shifted in from the top.
abbrev pub shifted_in : ℕ → ℕ → ℕ → ℕ
shifted_in zero b rec = rec
shifted_in (suc n) b rec =
    shifted_in n (b / 2) (if bit_and b 1 == 1 then bit_or (rec / 2) 0x80 else rec / 2)

-- Polls of an idle line, none of them past the timeout.
abbrev pub Idle : ℕ → List (Bool × ℕ) → Type 0
Idle timeout polls = All (λ p. (p.0 ≡ true) × (p.1 ≤ timeout)) polls

wait_start-times_out :
    (timeout elapsed : ℕ) (idle rest : List (Bool × ℕ))
    → Idle timeout idle
    → timeout < elapsed
    → wait_start timeout (idle ++ (true, elapsed) ∷ rest) ≡ false
unfolding wait_start
wait_start-times_out timeout elapsed [] rest h lt = ground arith
wait_start-times_out timeout elapsed ((high, t) ∷ idle) rest h lt =
    ground (arith, wait_start-times_out timeout elapsed idle rest h.1)

turned_lem :
    (s : HubSerial)
    → (if s.read_mode then s else record s { read_mode = true }) ≡ record s { read_mode = true }
turned_lem s = ground arith

-- The time of a bit, and the cycles from the falling edge of the start bit until the reader detects
-- it, such that the samples fall into the times of the bits and no count overflows.
pub record InTime (bit_time lag : ℕ) : Type 0 where
  pub long : 500 ≤ bit_time + bit_time / 3
  pub short : 10 * bit_time < 2 ^ 32
  pub not_before : 500 ≤ lag + bit_time / 3
  pub not_after : lag + bit_time / 3 < bit_time + 500

module _ (timeout elapsed : ℕ) (idle rest : List (Bool × ℕ)) (h : Idle timeout idle) where
  -- What the readers get of a line on which these events happen, `lag` cycles before the reader
  -- starts to count.
  abbrev pub BothRead : ℕ → ℕ → HubSerial → ℕ → List PinEvent → Type 0
  BothRead bit_time lag s b events =
      (read_byte bit_time timeout (idle ++ (false, elapsed) ∷ rest)
          (λ t. level_at events true (lag + t))
        ≡ b)
      × ((busy_read_byte s timeout (idle ++ (false, elapsed) ∷ rest)
            (λ t. level_at events true (lag + t))).0
          ≡ store (record s { read_mode = true }) b)

  -- If the time is over at the first late poll of an idle line, `readByte` returns 0 and
  -- `busyReadByte` stores nothing.
  pub read_byte_timeout :
      (bit_time : ℕ) (s : HubSerial) (pin : ℕ → Bool)
      → timeout < elapsed
      → (read_byte bit_time timeout (idle ++ (true, elapsed) ∷ rest) pin ≡ 0)
        × ((busy_read_byte s timeout (idle ++ (true, elapsed) ∷ rest) pin).0
            ≡ record s { read_mode = true })
  unfolding read_byte busy_read_byte
  read_byte_timeout bit_time s pin lt =
      let over = wait_start-times_out timeout elapsed idle rest h lt in
      (rw over, rw over (turned_lem s))
