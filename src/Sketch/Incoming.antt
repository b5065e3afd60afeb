-- ===== src/Sketch/Incoming.antt =====
-- A line that comes in at a device, byte by byte.
use native.Mathlib.Numerals.{add-one}
use sensaurus.Prelude.{
  ℕ, ◌+◌, ◌<◌, ◌≤◌, ◌≡◌, refl, sym, ap, ◌∙◌, arith, false, List, [], ◌∷◌, ◌++◌, append-nil,
  append_assoc, set, take, drop, take-all, take-append_le, take-set-suc, length, length-append,
  length-set, length-drop, tests, ltb, ltb→lt, ◌==◌, Bool-cases, inl, inr, Text, All, min, Option,
  none, some,
}
use sensaurus.CText.{c_str}
use sensaurus.CheckStream.{crlf}
use sensaurus.CheckStream.Buffer.{IsLineByte, c_str-set}
use sensaurus.Sensaur.{avr, Parsed, parse_message}
use sensaurus.Sensaur.Shape.{length-parse_message}
use sensaurus.Sketch.{Line, line_end, incoming, incoming_all}

-- Between lines.
pub record IsIdle (l : Line) : Type 0 where
  pub at_start : l.message_index ≡ 0
  pub size : length l.message ≡ 80

-- In a line of which `line` has come in.
record Holds (line : Text) (l : Line) : Type 0 where
  index_is : l.message_index ≡ min 80 (length line)
  holds : take l.message_index l.message ≡ take 80 line
  size : length l.message ≡ 80

-- What is left of the outcome of a message, with the line as it is then.
abbrev pub continue : {S : Type 0} → Line → Option S → Option (Line × S)
continue l none = none
continue l (some s) = some (l, s)

module _ {S : Type 0} (process_message : S → Parsed → Option S) where
  incoming-Holds :
      (line : Text) (l : Line) (s : S) (c : ℕ)
      → IsLineByte c
      → Holds line l
      → (l' : Line) × (incoming process_message l s c ≡ some (l', s)) × Holds (line ++ c ∷ []) l'
  unfolding incoming
  incoming-Holds line l s c h w =
      let other : (c == 13) ≡ false = ground (arith, h.not_cr) in
      let no_lf : (c == 10) ≡ false = ground (arith, h.not_lf) in
      rw (other, no_lf)
        (elim (Bool-cases (ltb l.message_index 80)) [
          | inl short ↦ rw short (
            record {
              message = set l.message l.message_index c;
              message_index = l.message_index + 1;
            },
            refl,
            record {
              index_is = omega (tests, w.index_is, ltb→lt _ _ short, length-append line (c ∷ []));
              holds =
                  rw add-one (take-set-suc l.message_index l.message c (omega (tests, w.size)))
                  ∙ ap (λ t. t ++ c ∷ []) w.holds
                  ∙ sym (take_line-append line c (omega tests));
              size = length-set l.message l.message_index c ∙ w.size;
            },
          )
          | inr full ↦
              let at_end : 80 ≤ length line = ground arith in
              rw full (
                l,
                refl,
                record {
                  index_is = omega (arith, w.index_is, length-append line (c ∷ []), at_end);
                  holds = w.holds ∙ sym (take-append_le 80 line (c ∷ []) at_end);
                  size = w.size;
                },
              )
        ])
    where
      take_line-append :
          (xs : Text) (b : ℕ) → length xs < 80 → take 80 (xs ++ b ∷ []) ≡ take 80 xs ++ b ∷ []
      take_line-append xs b lt =
          rw (take-all 80 xs (omega arith))
            (take-all 80 (xs ++ b ∷ []) (omega (arith, length-append xs (b ∷ []))))

  incoming_all-step :
      (l l' : Line) (s s' : S) (c : ℕ) (cs : List ℕ)
      → incoming process_message l s c ≡ some (l', s')
      → incoming_all process_message l s (c ∷ cs) ≡ incoming_all process_message l' s' cs
  unfolding incoming_all
  incoming_all-step l l' s s' c cs e = rw (incoming_all, e)

  incoming_all-Holds :
      (line m rest : Text) (l : Line) (s : S)
      → All IsLineByte m
      → Holds line l
      → (l' : Line) × (incoming_all process_message l s (m ++ rest)
          ≡ incoming_all process_message l' s rest)
        × Holds (line ++ m) l'
  unfolding incoming_all
  incoming_all-Holds line [] rest l s h w = (l, refl, rw (append-nil line) w)
  incoming_all-Holds line (c ∷ m) rest l s h w =
      let (l', step, w') = incoming-Holds line l s c h.0 w in
      let (l'', steps, w'') = incoming_all-Holds (line ++ c ∷ []) m rest l' s h.1 w' in
      (
        l'',
        incoming_all-step l l' s s c (m ++ rest) step ∙ steps,
        rw (append_assoc line (c ∷ []) m) at w'',
      )

  idle-Holds : (l : Line) → IsIdle l → Holds [] l
  idle-Holds l idle = record {
    index_is = idle.at_start;
    holds = rw idle.at_start;
    size = idle.size;
  }

  line_end-Holds :
      (line : Text) (l : Line) (s : S)
      → All IsLineByte line
      → 0 < length line
      → length line < 80
      → Holds line l
      → (left : Line) × IsIdle left
        × (line_end process_message l s
            ≡ continue left (process_message s (parse_message avr line 5 b',')))
  unfolding line_end
  line_end-Holds line l s h some_text short w =
      let r = parse_message avr line 5 b',' in
      let held : take l.message_index l.message ≡ line = w.holds ∙ take-all 80 line (omega arith) in
      let text : c_str (set l.message l.message_index 0) ≡ line =
        c_str-set l.message_index l.message (omega (arith, w.index_is, w.size)) (rw held h)
        ∙ held in
      let buffer = set l.message l.message_index 0 in
      let left : Line = record {
        message = r.buffer ++ drop (length line) buffer;
        message_index = 0;
      } in
      (
        left,
        record {
          at_start = refl;
          size = omega (
            arith,
            length-append r.buffer (drop (length line) buffer),
            length-drop (length line) buffer,
            length-set l.message l.message_index 0,
            w.size,
            length-parse_message avr line 5 b',',
          );
        },
        ground (arith, w.index_is, text),
      )

  incoming_all-crlf :
      (l left : Line) (s : S) (o : Option S)
      → line_end process_message l s ≡ continue left o
      → incoming_all process_message l s crlf ≡ continue left o
  unfolding incoming_all incoming
  incoming_all-crlf l left s none e = rw (incoming_all, e)
  incoming_all-crlf l left s (some s') e =
      incoming_all-step l left s s' 13 (10 ∷ []) e ∙ ground arith

  -- A line of 1 to 79 characters, without NULs and line ends, that comes in between lines, with its
  -- line end, is parsed exactly as it was sent and processed once; then the device waits for the
  -- next line.
  pub incoming_all_line :
      (l : Line) (s : S) (m : Text)
      → All IsLineByte m
      → 0 < length m
      → length m < 80
      → IsIdle l
      → (left : Line) × IsIdle left
        × (incoming_all process_message l s (m ++ crlf)
            ≡ continue left (process_message s (parse_message avr m 5 b',')))
  unfolding incoming_all incoming
  incoming_all_line l s m h some_text short idle =
      let (l', steps, w) = incoming_all-Holds [] m crlf l s h (idle-Holds l idle) in
      let (left, rest, last) = line_end-Holds m l' s h some_text short w in
      (
        left,
        rest,
        steps ∙ incoming_all-crlf l' left s (process_message s (parse_message avr m 5 b',')) last,
      )

  -- A line of 80 characters or more, without NULs and line ends, that comes in between lines, with
  -- its line end, makes the device write behind its buffer.
  pub incoming_all_overrun :
      (l : Line) (s : S) (m : Text)
      → All IsLineByte m
      → 80 ≤ length m
      → IsIdle l
      → incoming_all process_message l s (m ++ crlf) ≡ none
  unfolding incoming_all incoming line_end
  incoming_all_overrun l s m h long idle =
      let (l', steps, w) = incoming_all-Holds [] m crlf l s h (idle-Holds l idle) in
      let full : l'.message_index ≡ 80 = omega (arith, w.index_is) in rw (steps, incoming_all, full)
