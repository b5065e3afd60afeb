-- ===== src/Sketch/Relay/Serve.antt =====
-- The relay as the hub sees it: a state that is set and asked for.
use sensaurus.Prelude.{
  ℕ, ◌+◌, ◌<◌, ◌≡◌, refl, sym, append-nil, ap, ◌∙◌, arith, true, false, List, [], ◌∷◌, ◌++◌, some,
  length, leb, Text, All, codes,
}
use sensaurus.CText.{text_eq}
use sensaurus.CText.Number.{Printer}
use sensaurus.Crc.{crc_of}
use sensaurus.CheckStream.Buffer.{IsLineByte, IsReady, frame}
use sensaurus.Sensaur.{avr, Parsed, arg}
use sensaurus.Sensaur.Checksum.{IsPlain}
use sensaurus.Sensaur.Parse.{message, IsMessage, Reads}
use sensaurus.Sketch.{
  Core, Line, incoming_all, print_line, atoi, PinOp, digital_write, red_pin, green_pin, blue_pin,
}
use sensaurus.Prelude.{join}
use sensaurus.Sketch.Answer.{print_line_lem}
use sensaurus.Sketch.Incoming.{IsIdle, continue}
use sensaurus.Sketch.Exchange.{incoming_all-frame}
use sensaurus.Sketch.Plain.{All-join, hex_digits-IsLineByte, labelled-IsLineByte}
use sensaurus.Sketch.Relay.{Relay, relay_set, relay_message}

-- What the hub asks of a relay.
pub data Request : Type 0 where
  get_state : Request
  set_state : Text → Request
  describe : Request

abbrev pub request_command : Request → Text
request_command get_state = codes "v"
request_command (set_state v) = codes "s"
request_command describe = codes "m"

abbrev pub request_fields : Request → List Text
request_fields get_state = []
request_fields (set_state v) = v ∷ []
request_fields describe = []

abbrev pub request_text : Request → Text
request_text q = message b',' (request_command q) (request_fields q)

-- The specification: the state behind a request, and the answer to it.
abbrev pub state_behind : ℕ → Request → ℕ
state_behind n (set_state v) = atoi v
state_behind n _ = n

-- The specification: pin 2, which switches the relay, and the pins of the LED take the state that is
-- told; any other request leaves the pins alone.
abbrev pub pins_behind : Request → List PinOp
pins_behind (set_state v) =
    digital_write 2 (atoi v)
    ∷ digital_write red_pin (atoi v)
    ∷ digital_write green_pin (atoi v)
    ∷ digital_write blue_pin (atoi v)
    ∷ []
pins_behind _ = []

module _ {Float : Type 0} (core : Core Float) where
  abbrev pub answer_to : Relay → Request → List Text
  answer_to s get_state = codes "v:" ∷ core.dec s.relay_state ∷ []
  answer_to s (set_state v) = codes "s:" ∷ core.dec (atoi v) ∷ []
  answer_to s describe = codes "m:1;" ∷ core.printer.hex s.device_id ∷ codes ";o,relay" ∷ []

  answer_to-IsLineByte : (s : Relay) (q : Request) → All IsLineByte (join (answer_to s q))
  answer_to-IsLineByte s get_state =
      labelled-IsLineByte (codes "v:") (core.dec s.relay_state) (omega arith)
        (core.dec_is_plain s.relay_state)
  answer_to-IsLineByte s (set_state v) =
      labelled-IsLineByte (codes "s:") (core.dec (atoi v)) (omega arith)
        (core.dec_is_plain (atoi v))
  answer_to-IsLineByte s describe =
      All-join (codes "m:1;") (core.printer.hex s.device_id ++ codes ";o,relay") (omega arith) (
        All-join (core.printer.hex s.device_id) (codes ";o,relay")
          (hex_digits-IsLineByte (core.printer.hex s.device_id)
            (core.printer.hex_is_digits s.device_id))
          (omega arith))

  -- What the relay is after a request.
  pub record Serves (s : Relay) (q : Request) (t : Relay) : Type 0 where
    pub state_is : t.relay_state ≡ state_behind s.relay_state q
    pub pins_are : t.pins ≡ s.pins ++ pins_behind q
    pub id_kept : t.device_id ≡ s.device_id
    pub answer_is : t.out.sent ≡ s.out.sent ++ frame core.printer true (join (answer_to s q))
    pub ready : IsReady t.out

  relay_message_lem :
      (s : Relay) (q : Request) (r : Parsed)
      → Reads (request_command q) (request_fields q) r
      → IsReady s.out
      → (t : Relay) × (relay_message core s r ≡ some t) × Serves s q t
  unfolding relay_message relay_set text_eq
  relay_message_lem s get_state r reads ready =
      let (sent, again) =
        print_line_lem core.printer s.out (answer_to s get_state) (answer_to-IsLineByte s get_state)
          ready in
      (
        record s { out = print_line core.printer s.out (answer_to s get_state) },
        rw (relay_message, reads.command_is, text_eq),
        record {
          state_is = refl;
          pins_are = sym (append-nil s.pins);
          id_kept = refl;
          answer_is = sent;
          ready = again;
        },
      )
  relay_message_lem s (set_state v) r reads ready =
      let (sent, again) =
        print_line_lem core.printer s.out (answer_to s (set_state v))
          (answer_to-IsLineByte s (set_state v)) ready in
      let given : arg r 0 ≡ some v = ground arith in
      let enough : leb 1 r.ret ≡ true = ground (arith, reads.ret_is) in
      (
        relay_set core s (atoi v),
        rw (relay_message, reads.command_is, enough, text_eq, given),
        record {
          state_is = refl;
          pins_are = refl;
          id_kept = refl;
          answer_is = sent;
          ready = again;
        },
      )
  relay_message_lem s describe r reads ready =
      let (sent, again) =
        print_line_lem core.printer s.out (answer_to s describe) (answer_to-IsLineByte s describe)
          ready in
      (
        record s { out = print_line core.printer s.out (answer_to s describe) },
        rw (relay_message, reads.command_is, text_eq),
        record {
          state_is = refl;
          pins_are = sym (append-nil s.pins);
          id_kept = refl;
          answer_is = sent;
          ready = again;
        },
      )

  -- The hub sends a request, of fewer than 80 characters with its checksum, to an idle relay
  -- whose board reads the characters of the request as they are: the relay takes over the state that
  -- it is told, writes it to the pins of the relay and of its LED, and to no pin otherwise, answers
  -- with one checked line that holds its state or its description, and is idle again. The state in
  -- the request is free of colon, comma, mark, NUL and line end.
  pub relay-Serves :
      (p : Printer) (l : Line) (s : Relay) (q : Request)
      → IsMessage 5 b',' (request_command q) (request_fields q)
      → IsPlain avr (request_text q)
      → All IsLineByte (request_text q)
      → length (request_text q) + length (p.hex (crc_of 0xffff (request_text q))) < 79
      → IsIdle l
      → IsReady s.out
      → (left : Line) × (t : Relay) × (incoming_all
            (relay_message core)
            l
            s
            (frame p false (request_text q))
          ≡ some (left, t))
        × Serves s q t
        × IsIdle left
  relay-Serves p l s q ok plain bytes short idle ready =
      let (left, r, ends, reads, rest) =
        incoming_all-frame (relay_message core) p l s (request_command q) (request_fields q) ok
          plain bytes short idle in
      let (t, done, serves) = relay_message_lem s q r reads ready in
      (left, t, ends ∙ ap (continue left) done, serves, rest)
