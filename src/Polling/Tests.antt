-- ===== src/Polling/Tests.antt =====
-- One poll of a sensor that has measured 522.
use sensaurus.Prelude.{
  ℕ, ◌+◌, ◌≡◌, refl, arith, true, false, List, [], ◌∷◌, ◌++◌, some, get_elem?, Text, codes,
}
use sensaurus.CText.Hex.{arduino_printer, hex_text}
use sensaurus.Crc.{crc16_update}
use sensaurus.CheckStream.{CheckStream, check_stream, crlf}
use sensaurus.CheckStream.Buffer.{frame}
use sensaurus.Sketch.{Line, incoming_all}
use sensaurus.Sketch.Sample.{
  dec_fuel, decimal_core, idle_line, idle_line-IsIdle, check_stream-IsReady,
}
use sensaurus.Sketch.Sensing.{Sensing, co2_message}
use sensaurus.Sketch.Sensing.Co2.{fresh}
use sensaurus.Hub.{Hub}
use sensaurus.Hub.Receive.{request, wait_for_response}
use sensaurus.Hub.Response.{bytes_of}
use sensaurus.SensaurDevice.{Component}
use sensaurus.Hub.Take.Held.{HoldValues}
use sensaurus.Hub.Sample.{thermometer, small_hub}
use sensaurus.Polling.{asked, told, co2_polled}

abbrev no_text : ℕ → Text
no_text n = []

abbrev line_hub : Hub ℕ
line_hub = record small_hub { dev_stream = check_stream ∷ [] }

-- It has measured before.
abbrev measured : Sensing ℕ
measured = record {
  out = check_stream;
  device_id = 7;
  last = 522;
  valid = true;
  sensor = 0;
  pins = [];
}

abbrev always : ℕ → List ℕ × ℕ
always n = (34 ∷ 2 ∷ 10 ∷ 46 ∷ [], n + 1)

abbrev at_once : Text → List (ℕ × ℕ)
at_once [] = []
at_once (c ∷ cs) = (c, 1) ∷ at_once cs

abbrev reply : List (ℕ × ℕ)
reply = at_once (codes "v:522|A62F")

value_is : decimal_core.dec (fresh decimal_core always measured).last ≡ codes "522"
unfolding dec_fuel
value_is = refl

reply_is : bytes_of reply ++ crlf ≡ frame arduino_printer true (told (codes "522"))
unfolding crc16_update hex_text
reply_is = refl

co2_polled_example :
    (out' : CheckStream) × (asking : Hub ℕ) × (left : Line) × (co2' : Sensing ℕ) × (s' : Hub ℕ)
    × (es : List (Component ℕ)) × (request no_text arduino_printer line_hub 0 ≡ asking)
    × (get_elem? asking.dev_stream 0 ≡ some out')
    × (out'.sent ≡ [] ++ frame arduino_printer false asked)
    × (incoming_all
          (co2_message decimal_core always)
          idle_line
          measured
          (frame arduino_printer false asked)
        ≡ some (left, co2'))
    × (co2'.out.sent ≡ [] ++ (bytes_of reply ++ crlf))
    × (wait_for_response no_text asking 9 0 (reply ++ (13, 2) ∷ []) ≡ some s')
    × (get_elem? s'.devices 0
        ≡ some (record thermometer { error_count = 0; no_response_count = 0; components = es }))
    × HoldValues thermometer.components 2
        (decimal_core.dec (fresh decimal_core always measured).last ∷ [])
        es
unfolding dec_fuel hex_text crc16_update
co2_polled_example =
    co2_polled decimal_core always no_text arduino_printer line_hub 0 9 2 thermometer check_stream
      idle_line measured reply [] refl refl refl (omega arith) check_stream-IsReady (omega arith)
      idle_line-IsIdle check_stream-IsReady
      (omega arith, omega arith, (omega arith, omega arith), reply_is) (omega arith) (omega arith)
      (omega arith) (omega arith)
