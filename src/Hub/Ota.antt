-- ===== src/Hub/Ota.antt =====
-- The callbacks that `setupOTA` of hub-esp32/hub-esp32.ino installs for updates over the air. The
-- library ArduinoOTA, which calls them, is not in the repository.
pub mod Progress
mod Tests
use sensaurus.Prelude.{ℕ, ◌/◌, [], ◌∷◌, ◌++◌, Option, none, some, ◌==◌, if◌then◌else◌, Text, codes}
use sensaurus.CheckStream.{crlf}
use sensaurus.Hub.{console, emit, set_last_error}
use sensaurus.Hub.Control.{Control, tell, say}

abbrev pub err_ota : ℕ
err_ota = 3

-- The errors of ArduinoOTA that the callback tells apart, and any other.
pub data OtaError : Type 0 where
  ota_auth_error ota_begin_error ota_connect_error ota_receive_error : OtaError
  ota_end_error other_ota_error : OtaError

-- What the console is told of an error.
unfoldable pub error_text : OtaError → Text
error_text ota_auth_error = codes "Auth Failed" ++ crlf
error_text ota_begin_error = codes "Begin Failed" ++ crlf
error_text ota_connect_error = codes "Connect Failed" ++ crlf
error_text ota_receive_error = codes "Receive Failed" ++ crlf
error_text ota_end_error = codes "End Failed" ++ crlf
error_text other_ota_error = []

-- The percentage, in the unsigned integer division of the source; `none` for a division by 0.
unfoldable pub percentage : ℕ → ℕ → Option ℕ
percentage progress total =
    let hundredth = total / 100 in if hundredth == 0 then none else some (progress / hundredth)

module _ {Float Queue : Type 0} (dec : ℕ → Text) where
  -- `onError`, at a time, for an error and its number.
  unfoldable pub on_error : ℕ → OtaError → ℕ → Control Float Queue → Control Float Queue
  unfolding emit set_last_error error_text
  on_error time error number s =
      tell (record s { hub = set_last_error s.hub time err_ota })
        (console (codes "Error[" ++ dec number ++ codes "]: ") ∷ console (error_text error) ∷ [])

  -- `onProgress`.
  unfoldable pub on_progress : ℕ → ℕ → Control Float Queue → Option (Control Float Queue)
  unfolding emit percentage
  on_progress progress total s = elim (percentage progress total) [
    | none ↦ none
    | some percent ↦
        some (tell s (console (codes "Progress: " ++ dec percent ++ b'%' ∷ 13 ∷ []) ∷ []))
  ]

  -- `onEnd`.
  unfoldable pub on_end : Control Float Queue → Control Float Queue
  unfolding emit
  on_end s = tell s (say (10 ∷ codes "End") ∷ [])
