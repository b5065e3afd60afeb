-- ===== src/Hub/SwSerial/Tests.antt =====
-- The build with USE_SWSERIAL at a short answer.
use sensaurus.Prelude.{ℕ, ◌≡◌, refl, arith, List, [], ◌∷◌, ◌++◌, Option, none, some, codes}
use sensaurus.CheckStream.{check_stream, crlf}
use sensaurus.Hub.{Hub}
use sensaurus.Hub.Receive.{wait_for_response}
use sensaurus.Hub.SwSerial.{wait_for_response_sw_serial, request_sw_serial}
use sensaurus.Hub.SwSerial.Same.{silent, wait_for_response_sw_serial_lem}
use sensaurus.Hub.Sample.{small_hub}

abbrev line_hub : Hub ℕ
line_hub = record small_hub { dev_stream = check_stream ∷ [] }

asks_plainly :
    (request_sw_serial (λ n. []) line_hub 0).dev_stream
    ≡ record check_stream { sent = codes "v" ++ crlf } ∷ []
unfolding request_sw_serial
asks_plainly = refl

-- Two idle polls, a byte, another idle poll, and then nothing until the time is over.
abbrev polls : List (Option ℕ × ℕ)
polls = (none, 1) ∷ (none, 2) ∷ (some b'v', 3) ∷ (none, 4) ∷ []

wait_for_response_sw_serial_lem_example :
    wait_for_response_sw_serial (λ n. []) small_hub 9 0 (polls ++ (none, 50) ∷ [])
    ≡ wait_for_response (λ n. []) small_hub 9 0 ((b'v', 3) ∷ (0, 54) ∷ [])
wait_for_response_sw_serial_lem_example =
    wait_for_response_sw_serial_lem (λ n. []) small_hub 9 0 54 (silent 50) polls [] [] (omega arith)
      (omega arith)
