-- ===== src/Hub/SwSerial/Same.antt =====
-- The two builds of the hub receive alike.
use sensaurus.Prelude.{
  ℕ, ◌+◌, ◌<◌, ◌≤◌, ◌≡◌, refl, ap, arith, true, false, List, [], ◌∷◌, ◌++◌, Option, none, some, set,
  ltb, if◌then◌else◌, Text, All,
}
use sensaurus.Hub.{Hub}
use sensaurus.Hub.Receive.{Reception, no_reception, receive, handle_reception, wait_for_response}
use sensaurus.Hub.SwSerial.{receive_polls, wait_for_response_sw_serial}

-- Polls of the line that all come before the time is over.
abbrev pub AllEarly : ℕ → List (Option ℕ × ℕ) → Type 0
AllEarly timeout polls = All (λ p. p.1 < timeout) polls

-- The bytes that polls have found, each with its time.
abbrev pub found : List (Option ℕ × ℕ) → List (ℕ × ℕ)
found [] = []
found ((none, elapsed) ∷ polls) = found polls
found ((some c, elapsed) ∷ polls) = (c, elapsed) ∷ found polls

-- How an answer ends: with a control character, at a time, or because nothing comes any more.
pub data Ending : Type 0 where
  stopped : ℕ → ℕ → Ending
  silent : ℕ → Ending

-- The character comes before the time is over, or the line is found idle behind it.
abbrev pub IsEnding : ℕ → Ending → Type 0
IsEnding timeout (stopped c t) = (c < 32) × (t < timeout)
IsEnding timeout (silent t) = timeout ≤ t

-- The last poll of a SoftwareSerial, and what the last `readByte` of the other build returns, which
-- is 0 for silence.
abbrev pub last_poll : Ending → Option ℕ × ℕ
last_poll (stopped c t) = (some c, t)
last_poll (silent t) = (none, t)

abbrev pub last_read : Ending → ℕ → ℕ × ℕ
last_read (stopped c t) late = (c, t)
last_read (silent t) late = (0, late)

receive_polls-receive :
    (timeout late : ℕ) (e : Ending) (polls more : List (Option ℕ × ℕ)) (others : List (ℕ × ℕ))
    (r : Reception)
    → AllEarly timeout polls
    → IsEnding timeout e
    → receive_polls timeout (polls ++ last_poll e ∷ more) r
      ≡ receive timeout (found polls ++ last_read e late ∷ others) r
unfolding receive_polls receive
receive_polls-receive timeout late (stopped c t) [] more others r early (control, in_time) =
    let ends : ltb c 32 ≡ true = ground arith in rw ends refl
receive_polls-receive timeout late (silent t) [] more others r early over =
    let late_now : ltb t timeout ≡ false = ground arith in rw late_now refl
receive_polls-receive timeout late e ((none, elapsed) ∷ polls) more others r early h =
    let in_time : ltb elapsed timeout ≡ true = ground arith in
    rw in_time (receive_polls-receive timeout late e polls more others r early.1 h)
receive_polls-receive timeout late e ((some c, elapsed) ∷ polls) more others r early h =
    let seen : Reception = if ltb 127 c then record r { non_ascii = true } else r in
    let stored : Reception =
      if ltb seen.index 199
      then record seen { message = set seen.message seen.index c; index = seen.index + 1 }
      else seen in
    ap (λ rest. if ltb c 32 then seen else if ltb elapsed timeout then rest else stored)
      (receive_polls-receive timeout late e polls more others stored early.1 h)

-- An answer whose bytes all come before the time is over, behind whatever polls of an idle line,
-- and which then ends, with a control character in that time or in silence, is received alike by
-- the build with USE_SWSERIAL and by the other build, where `readByte` returns the same bytes and,
-- for silence, 0 at any time.
pub wait_for_response_sw_serial_lem :
    {Float : Type 0} (dec : ℕ → Text) (s : Hub Float) (time i late : ℕ) (e : Ending)
    (polls more : List (Option ℕ × ℕ)) (others : List (ℕ × ℕ))
    → AllEarly s.config.response_timeout polls
    → IsEnding s.config.response_timeout e
    → wait_for_response_sw_serial dec s time i (polls ++ last_poll e ∷ more)
      ≡ wait_for_response dec s time i (found polls ++ last_read e late ∷ others)
unfolding wait_for_response_sw_serial wait_for_response
wait_for_response_sw_serial_lem dec s time i late e polls more others early h =
    ap (handle_reception dec s time i) (
      receive_polls-receive s.config.response_timeout late e polls more others no_reception early h)
