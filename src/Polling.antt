-- ===== src/Polling.antt =====
-- The hub of hub-esp32/hub-esp32.ino and the device of device-co2/device-co2.ino on one line: the
-- request of the hub, the answer of the device, and what the hub makes of it.
mod Tests
use sensaurus.Prelude.{
  ℕ, ◌+◌, ◌<◌, ◌≤◌, ◌≡◌, ◌≢◌, refl, sym, ap, ap₂, ◌∙◌, arith, Bool, true, false, List, [], ◌∷◌,
  ◌++◌, append-nil, append_assoc, Option, none, some, set, take, take-all, get_elem?, get_elem?-lt,
  get_elem?-set_self, length, length-append, ◌==◌, if◌then◌else◌, All, Text, codes, inl, join,
}
use sensaurus.CText.Number.{Printer}
use sensaurus.Crc.{crc_of}
use sensaurus.CheckStream.{CheckStream, write_all, crlf}
use sensaurus.CheckStream.Buffer.{IsReady, frame}
use sensaurus.CheckStream.Lines.{write_line}
use sensaurus.Sensaur.{avr}
use sensaurus.Sensaur.Checksum.{HasNoBar}
use sensaurus.Sensaur.Parse.{message, IsMessage, IsField}
use sensaurus.SensaurDevice.{Component, Device}
use sensaurus.Sketch.{Core, Line, incoming_all}
use sensaurus.Sketch.Incoming.{IsIdle, continue}
use sensaurus.Sketch.Exchange.{incoming_all-frame}
use sensaurus.Sketch.Sensing.{Sensing, co2_message}
use sensaurus.Sketch.Sensing.Co2.{fresh, co2_message_value}
use sensaurus.Hub.{Hub}
use sensaurus.Hub.Receive.{request, wait_for_response}
use sensaurus.Hub.Response.{InTime, bytes_of, length-bytes_of, IsPrintable}
use sensaurus.Hub.Take.Held.{HoldValues, IsValue}
use sensaurus.Hub.Values.{wait_for_response_values}

-- The request for values, and the answer with a value.
abbrev pub asked : Text
asked = message b',' (codes "v") []

abbrev pub told : Text → Text
told value = message b',' (codes "v") (value ∷ [])

asked-IsMessage : IsMessage 5 b',' (codes "v") []
asked-IsMessage = record {
  separates = inl refl;
  command_clean = omega arith;
  fields_clean = tt;
  fits = omega arith;
  small = omega arith;
}

told-IsMessage : (value : Text) → IsField b',' value → IsMessage 7 b',' (codes "v") (value ∷ [])
told-IsMessage value h = record {
  separates = inl refl;
  command_clean = omega arith;
  fields_clean = (h, tt);
  fits = omega arith;
  small = omega arith;
}

told-HasNoBar : (value : Text) → HasNoBar value → HasNoBar (told value)
told-HasNoBar value h = (omega arith, (omega arith, rw (append-nil value) h))

-- The hub's request to a device with components, on a stream that is between lines.
request_lem :
    {Float : Type 0} (dec : ℕ → Text) (p : Printer) (s : Hub Float) (i : ℕ) (d : Device Float)
    (out : CheckStream)
    → get_elem? s.devices i ≡ some d
    → get_elem? s.dev_stream i ≡ some out
    → 0 < d.component_count
    → IsReady out
    → (out' : CheckStream) × (request dec p s i ≡ record s { dev_stream = set s.dev_stream i out' })
      × (out'.sent ≡ out.sent ++ frame p false asked)
unfolding request
request_lem dec p s i d out found stream some_components ready =
    let counted : (d.component_count == 0) ≡ false = ground arith in
    (
      write_all p false out (codes "v" ++ crlf),
      rw (request, stream, found, counted),
      (write_line p false (codes "v") out (omega arith) ready).0,
    )

append_cancel : (xs ys tail : Text) → xs ++ tail ≡ ys ++ tail → xs ≡ ys
append_cancel [] [] tail h = refl
append_cancel [] (y ∷ ys) tail h = absurd (omega (arith, ap length h, length-append (y ∷ ys) tail))
append_cancel (x ∷ xs) [] tail h = absurd (omega (arith, ap length h, length-append (x ∷ xs) tail))
append_cancel (x ∷ xs) (y ∷ ys) tail h =
    let behind : xs ++ tail ≡ ys ++ tail = cc in
    let first : x ≡ y = cc in ap₂ ◌∷◌ first (append_cancel xs ys tail behind)

-- The line that a device with a buffer sends for a value, up to its line end.
told-frame :
    (p : Printer) (value sent : Text)
    → length value ≤ 90
    → sent ++ crlf ≡ frame p true (told value)
    → sent ≡ told value ++ b'|' ∷ p.hex (crc_of 0xffff (told value))
told-frame p value sent short e =
    let m = told value in
    let whole : take 99 m ≡ m = take-all 99 m (omega (arith, length-append value [])) in
    append_cancel sent (m ++ b'|' ∷ p.hex (crc_of 0xffff m)) crlf (
      e
      ∙ ap (λ t. t ++ b'|' ∷ (p.hex (crc_of 0xffff m) ++ crlf)) whole
      ∙ sym (append_assoc m (b'|' ∷ p.hex (crc_of 0xffff m)) crlf))

module _ {Float FloatD Sensor : Type 0} (core : Core FloatD) (sensor : Sensor → List ℕ × Sensor)
    (dec : ℕ → Text) (p : Printer) (s : Hub Float) (i time t : ℕ) (d : Device Float)
    (out : CheckStream) (l : Line) (co2 : Sensing Sensor) (reads rest : List (ℕ × ℕ)) where
  -- In the build without USE_SWSERIAL, a connected device of the hub is the CO2 sensor, idle at the
  -- other end of the line. The hub asks for values, the sensor answers, and once its answer has come,
  -- in time and in printable characters, the first input among the components in use has the value
  -- that the sensor had measured as its string, of at most 9 characters, free of colon, comma, mark
  -- and NUL; nothing else of a component changes, and both error counters of the device are reset.
  -- The arrays of the values have their declared size.
  pub co2_polled :
      get_elem? s.devices i ≡ some d
      → get_elem? s.dev_stream i ≡ some out
      → d.connected ≡ true
      → 0 < d.component_count
      → IsReady out
      → length (p.hex (crc_of 0xffff asked)) < 78
      → IsIdle l
      → IsReady co2.out
      → (let value = core.dec (fresh core sensor co2).last in
          (IsField b',' value)
          × (HasNoBar value)
          × IsValue value
          × (bytes_of reads ++ crlf ≡ frame core.printer true (told value)))
      → All (λ c. length c.value ≡ 10) d.components
      → InTime s.config.response_timeout reads
      → All IsPrintable (bytes_of reads)
      → length reads < 200
      → (out' : CheckStream) × (asking : Hub Float) × (left : Line) × (co2' : Sensing Sensor)
        × (s' : Hub Float) × (es : List (Component Float)) × (request dec p s i ≡ asking)
        × (get_elem? asking.dev_stream i ≡ some out')
        × (out'.sent ≡ out.sent ++ frame p false asked)
        × (incoming_all (co2_message core sensor) l co2 (frame p false asked) ≡ some (left, co2'))
        × (co2'.out.sent ≡ co2.out.sent ++ (bytes_of reads ++ crlf))
        × (wait_for_response dec asking time i (reads ++ (13, t) ∷ rest) ≡ some s')
        × (get_elem? s'.devices i
            ≡ some (record d { error_count = 0; no_response_count = 0; components = es }))
        × HoldValues d.components d.component_count (core.dec (fresh core sensor co2).last ∷ []) es
  co2_polled found stream connected used ready short idle ready' (field, bar, small, line) sizes
        in_time printable few =
      let value = core.dec (fresh core sensor co2).last in
      let (out', asks, sent) = request_lem dec p s i d out found stream used ready in
      let asking : Hub Float = record s { dev_stream = set s.dev_stream i out' } in
      let (left, r, taken, reads_is, rested) =
        incoming_all-frame (co2_message core sensor) p l co2 (codes "v") [] asked-IsMessage refl
          (omega arith) (omega arith) idle in
      let (co2', answered, answer, again, valid) =
        co2_message_value core sensor co2 r reads_is ready' in
      let framed = told-frame core.printer value (bytes_of reads) (omega (arith, small.1)) line in
      let some_bytes : 0 < length reads = omega (arith, length-bytes_of reads, ap length framed) in
      let (s', es, ends, given, held) =
        wait_for_response_values dec t reads rest asking time i d in_time printable some_bytes few
          found core.printer (value ∷ []) connected (told-IsMessage value field)
          (told-HasNoBar value bar) sizes (small, tt) framed in
      (
        out',
        asking,
        left,
        co2',
        s',
        es,
        asks,
        get_elem?-set_self s.dev_stream i out' (get_elem?-lt s.dev_stream i out stream),
        sent,
        taken ∙ ap (continue left) answered,
        answer ∙ ap (◌++◌ co2.out.sent) (sym line),
        ends,
        given,
        held,
      )
