-- ===== src/HubSerial.antt =====
-- libraries/HubSerial and libraries/SimpleSerial: a half-duplex serial line by timed pin changes.
-- `HubSerial` keeps what it reads in a ring of bytes; `SimpleHubSerial` hands it to its caller.
pub mod Ring
pub mod Wire
mod Tests
use sensaurus.Prelude.{
  ℕ, zero, suc, ◌+◌, ◌-◌, ◌*◌, ◌/◌, ◌%◌, ◌^◌, Bool, true, false, not, ◌&&◌, List, [], ◌∷◌, ◌++◌,
  Option, none, some, get_or, set, replicate, leb, ltb, ◌==◌, if◌then◌else◌, bit_or, bit_and, u32,
}

-- What the code does to its pin, in order; `wait_until` is WAIT, which ends when the processor has
-- counted that many cycles since the falling edge of the start bit.
pub data PinEvent : Type 0 where
  mode_input mode_output : PinEvent
  level : Bool → PinEvent
  wait_until : ℕ → PinEvent

pub record HubSerial : Type 0 where
  pub read_mode : Bool
  pub bit_time : ℕ
  pub in_pos : ℕ
  pub out_pos : ℕ
  pub buff_size : ℕ
  pub buffer : List ℕ
  pub overflow : Bool

-- The constructor, over memory that `malloc` returned: `storage` is what it holds.
pub hub_serial : ℕ → List ℕ → HubSerial
hub_serial buff_size storage = record {
  read_mode = true;
  bit_time = 0;
  in_pos = 0;
  out_pos = 0;
  buff_size = buff_size;
  buffer = storage;
  overflow = false;
}

-- `begin(speed)` at a clock of `mhz` megahertz.
pub begin : HubSerial → ℕ → ℕ → HubSerial × List PinEvent
begin s mhz speed =
    (record s { bit_time = mhz * 1000000 / speed; read_mode = true }, mode_input ∷ [])

-- The next index, in the 32-bit arithmetic of `unsigned int`.
abbrev pub next_index : ℕ → ℕ → ℕ
next_index size i = (i + 1) % 2 ^ 32 % size

-- `none` is the result -1.
unfoldable pub read : HubSerial → Option ℕ × HubSerial
read s = if s.in_pos == s.out_pos then (none, s) else (
  some (get_or s.buffer s.out_pos 0),
  record s { out_pos = next_index s.buff_size s.out_pos },
)

-- `int avail = m_inPos - m_outPos`, with the buffer size added where that is negative.
unfoldable pub available : HubSerial → ℕ
available s =
    let avail = (s.in_pos + 2 ^ 32 - s.out_pos) % 2 ^ 32 in
    if leb (2 ^ 31) avail then (avail + s.buff_size) % 2 ^ 32 else avail

unfoldable pub flush : HubSerial → HubSerial
flush s = record s { in_pos = 0; out_pos = 0 }

unfoldable pub peek : HubSerial → Option ℕ
peek s = if s.in_pos == s.out_pos then none else some (get_or s.buffer s.out_pos 0)

-- The loop over the bits of a byte, the lowest first, each held until the next end of a bit.
pub write_bits : ℕ → ℕ → ℕ → ℕ → List PinEvent
write_bits zero bit_time wait b = []
write_bits (suc n) bit_time wait b =
    level (bit_and b 1 == 1)
    ∷ wait_until wait
    ∷ write_bits n bit_time (u32 (wait + bit_time)) (b / 2)

-- Start bit, data bits, stop bit; the line is raised first. The stop bit ends ten bits after the
-- start.
pub frame_bits : ℕ → ℕ → List PinEvent
unfolding write_bits
frame_bits bit_time b =
    level true
    ∷ level false
    ∷ wait_until bit_time
    ∷ (write_bits 8 bit_time (u32 (bit_time + bit_time)) b
        ++ level true ∷ wait_until (u32 (10 * bit_time)) ∷ [])

-- `write`, which returns 1.
pub write : HubSerial → ℕ → HubSerial × List PinEvent
unfolding frame_bits
write s b = (
  record s { read_mode = false },
  if s.read_mode then mode_output ∷ frame_bits s.bit_time b else frame_bits s.bit_time b,
)

-- The wait for the start bit. Each poll is the level of the pin and the milliseconds since the
-- wait began; true when the level falls, false when the time is over or no poll is left.
unfoldable pub wait_start : ℕ → List (Bool × ℕ) → Bool
wait_start timeout [] = false
wait_start timeout ((high, elapsed) ∷ polls) =
    let rest = wait_start timeout polls in
    if not high then true else if ltb timeout elapsed then false else rest

-- `m_bitTime + m_bitTime/3 - 500`, the cycles from the start bit's detection to the first sample.
abbrev pub first_sample : ℕ → ℕ
first_sample bit_time = u32 (bit_time + bit_time / 3 + (2 ^ 32 - 500))

-- The loop that reads the data bits. `pin` is the level of the pin at a number of cycles after the
-- start bit was detected; each sample is at the end of its WAIT.
-- The WAIT for the stop bit behind the loop only passes time.
unfoldable pub sample_bits : (ℕ → Bool) → ℕ → ℕ → ℕ → ℕ → ℕ
sample_bits pin bit_time zero wait rec = rec
sample_bits pin bit_time (suc n) wait rec =
    sample_bits pin bit_time n (u32 (wait + bit_time))
      (if pin wait then bit_or (rec / 2) 0x80 else rec / 2)

-- Store the received byte, unless the ring is full.
unfoldable pub store : HubSerial → ℕ → HubSerial
store s rec =
    let next = next_index s.buff_size s.in_pos in
    if not (next == s.out_pos)
    then record s { buffer = set s.buffer s.in_pos rec; in_pos = next }
    else record s { overflow = true }

-- `busyReadByte(timeout)` with the polls of the wait and the levels of the pin after it.
unfoldable pub busy_read_byte :
    HubSerial → ℕ → List (Bool × ℕ) → (ℕ → Bool) → HubSerial × List PinEvent
unfolding wait_start sample_bits store
busy_read_byte s timeout polls pin =
    let turned = if s.read_mode then s else record s { read_mode = true } in
    let events = if s.read_mode then [] else mode_input ∷ [] in
    if wait_start timeout polls
    then (store turned (sample_bits pin s.bit_time 8 (first_sample s.bit_time) 0), events)
    else (turned, events)

-- SimpleHubSerial has no state but its pin and its bit time. `begin` drives the line high.
pub simple_begin : ℕ → ℕ → ℕ × List PinEvent
simple_begin mhz speed = (mhz * 1000000 / speed, mode_output ∷ level true ∷ [])

pub simple_write : ℕ → ℕ → List PinEvent
simple_write bit_time b = frame_bits bit_time b

pub start_read : List PinEvent
start_read = mode_input ∷ []

pub end_read : List PinEvent
end_read = mode_output ∷ level true ∷ []

-- `readByte(timeout)`: 0 where no start bit comes.
unfoldable pub read_byte : ℕ → ℕ → List (Bool × ℕ) → (ℕ → Bool) → ℕ
unfolding wait_start sample_bits
read_byte bit_time timeout polls pin =
    if wait_start timeout polls then sample_bits pin bit_time 8 (first_sample bit_time) 0 else 0
