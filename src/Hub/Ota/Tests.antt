-- ===== src/Hub/Ota/Tests.antt =====
-- Updates over the air at concrete inputs.
use sensaurus.Prelude.{ℕ, ◌≡◌, refl, none, some, Text, codes}
use sensaurus.ProcessingQueue.Sample.{list_fifo}
use sensaurus.Hub.Control.{Control}
use sensaurus.Hub.Ota.{ota_begin_error, percentage, on_error}
use sensaurus.Hub.Sample.{fresh_control}

-- With a total of 199 bytes the percentage goes up to 199.
percentages :
    (percentage 65536 1000000 ≡ some 6)
    × (percentage 1000000 1000000 ≡ some 100)
    × (percentage 199 199 ≡ some 199)
    × (percentage 50 99 ≡ none)
unfolding percentage
percentages = (refl, refl, refl, refl)

abbrev one : ℕ → Text
one n = codes "1"

abbrev failed : Control ℕ list_fifo.Queue
failed = on_error one 700 ota_begin_error 1 fresh_control

counted : (failed.hub.err_count ≡ 1) × (failed.hub.err_last_error_code ≡ 3)
unfolding on_error
counted = (refl, refl)
