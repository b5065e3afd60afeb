-- ===== src/Hub/Control/Console.antt =====
-- A line typed at the console.
use native.Mathlib.Numerals.{add-one}
use sensaurus.Prelude.{
  ℕ, ◌+◌, ◌<◌, ◌≤◌, ◌≡◌, refl, sym, ap, ◌∙◌, arith, false, ◌||◌, List, [], ◌∷◌, ◌++◌, append_assoc,
  append-nil, Option, none, some, set, take, take-set-suc, take-all, take-append_le, length,
  length-append, length-set, All, ltb, ltb→lt, ◌==◌, Bool-cases, Option-cases, inl, inr, Text, min,
}
use sensaurus.CText.{c_str}
use sensaurus.CText.Number.{Printer}
use sensaurus.CText.Copy.{IsText, IsText-take, c_str-set}
use sensaurus.CheckStream.Buffer.{IsLineByte}
use sensaurus.ProcessingQueue.{QueueItem, Fifo}
use sensaurus.Hub.Control.{
  Control, no_doc, Build, run_command, process_byte_from_computer, type_bytes,
}

-- The buffer and the index once the characters of `line` have been typed.
record Typed (line message : List ℕ) (index : ℕ) : Type 0 where
  size : length message ≡ 40
  index_is : index ≡ min 39 (length line)
  holds : take index message ≡ take 39 line

Typed-stored :
    (line message : List ℕ) (index c : ℕ)
    → Typed line message index
    → index < 39
    → Typed (line ++ c ∷ []) (set message index c) (index + 1)
Typed-stored line message index c w short =
    let fits : length line < 39 = omega (arith, w.index_is) in
    let whole : take 39 line ++ c ∷ [] ≡ take 39 (line ++ c ∷ []) =
      ap (λ t. t ++ c ∷ []) (take-all 39 line (omega arith))
      ∙ sym (take-all 39 (line ++ c ∷ []) (omega (arith, length-append line (c ∷ [])))) in
    record {
      size = length-set message index c ∙ w.size;
      index_is = omega (arith, w.index_is, length-append line (c ∷ []));
      holds =
          rw add-one (take-set-suc index message c (omega (arith, w.size)))
          ∙ ap (λ t. t ++ c ∷ []) w.holds
          ∙ whole;
    }

Typed-full :
    (line message : List ℕ) (index c : ℕ)
    → Typed line message index
    → 39 ≤ index
    → Typed (line ++ c ∷ []) message index
Typed-full line message index c w full =
    let at_end : 39 ≤ length line = omega (arith, w.index_is) in
    record {
      size = w.size;
      index_is = omega (arith, w.index_is, length-append line (c ∷ []));
      holds = w.holds ∙ sym (take-append_le 39 line (c ∷ []) at_end);
    }

line-IsText : (line : Text) → All IsLineByte line → IsText line
line-IsText [] h = tt
line-IsText (c ∷ line) h = (h.0.not_nul, line-IsText line h.1)

module _ {Float : Type 0} (f : Fifo QueueItem) (p : Printer) (dec : ℕ → Text)
    (build : Build Float) where
  -- The state with another buffer and index.
  abbrev pub typing : Control Float f.Queue → List ℕ → ℕ → Control Float f.Queue
  typing s message index = record s { console_message = message; console_message_index = index }

  type_line :
      (s : Control Float f.Queue) (line more message : List ℕ) (index : ℕ)
      → All IsLineByte more
      → Typed line message index
      → (message' : List ℕ) × (index' : ℕ) × (type_bytes f p dec build
            (typing s message index)
            (more ++ 13 ∷ [])
          ≡ type_bytes f p dec build (typing s message' index') (13 ∷ []))
        × Typed (line ++ more) message' index'
  unfolding type_bytes process_byte_from_computer
  type_line s line [] message index h w = (message, index, refl, rw (append-nil line) w)
  type_line s line (c ∷ more) message index h w =
      let other : (c == 10 || c == 13) ≡ false = ground (arith, h.0.not_cr, h.0.not_lf) in
      elim (Bool-cases (ltb index 39)) [
        | inl short ↦
            let (message', index', steps, w') =
              type_line s (line ++ c ∷ []) more (set message index c) (index + 1) h.1
                (Typed-stored line message index c w (ltb→lt _ _ short)) in
            (
              message',
              index',
              rw (type_bytes, process_byte_from_computer, other, short) steps,
              rw (append_assoc line (c ∷ []) more) at w',
            )
        | inr full ↦
            let (message', index', steps, w') =
              type_line s (line ++ c ∷ []) more message index h.1
                (Typed-full line message index c w (ground arith)) in
            (
              message',
              index',
              rw (type_bytes, process_byte_from_computer, other, full) steps,
              rw (append_assoc line (c ∷ []) more) at w',
            )
      ]

  -- What a command leaves, with the console's buffer empty again.
  abbrev pub line_done : Option (Control Float f.Queue) → Option (Control Float f.Queue)
  line_done none = none
  line_done (some t) = some (record t { console_message_index = 0 })

  line_ends :
      (s : Control Float f.Queue) (line message : List ℕ) (index : ℕ)
      → All IsLineByte line
      → 0 < length line
      → Typed line message index
      → type_bytes f p dec build (typing s message index) (13 ∷ [])
        ≡ line_done
            (run_command f p dec build (typing s (set message index 0) index) (take 39 line) no_doc)
  unfolding type_bytes process_byte_from_computer
  line_ends s line message index h some_typed w =
      let pos : (index == 0) ≡ false = ground (arith, w.index_is) in
      let text : c_str (set message index 0) ≡ take 39 line =
        c_str-set index message (omega (arith, w.index_is, w.size))
          (rw w.holds (IsText-take 39 line (line-IsText line h)))
        ∙ w.holds in
      elim (Option-cases
        (run_command f p dec build (typing s (set message index 0) index) (take 39 line) no_doc)) [
          | inl fault ↦ rw (type_bytes, process_byte_from_computer, pos, text, fault)
          | inr (t, ran) ↦ rw (type_bytes, process_byte_from_computer, pos, text, ran)
        ]

  -- A line of at least one character, without NULs and line ends, typed at the console with its
  -- line end while the console's buffer is empty, is run as a command, with no document, and the
  -- buffer is empty again. Of a longer line the first 39 characters are the command.
  pub type_bytes_line :
      (s : Control Float f.Queue) (line : List ℕ)
      → All IsLineByte line
      → 0 < length line
      → length s.console_message ≡ 40
      → s.console_message_index ≡ 0
      → (message : List ℕ) × (index : ℕ) × (type_bytes f p dec build s (line ++ 13 ∷ [])
          ≡ line_done (run_command f p dec build (typing s message index) (take 39 line) no_doc))
  type_bytes_line s line h some_typed size empty =
      let start : Typed [] s.console_message s.console_message_index = record {
        size = size;
        index_is = empty;
        holds = rw empty;
      } in
      let (message, index, steps, w) =
        type_line s [] line s.console_message s.console_message_index h start in
      (set message index 0, index, steps ∙ line_ends s line message index h some_typed w)
