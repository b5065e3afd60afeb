-- ===== src/Hub/Actuators/Settings.antt =====
-- The message that sets the outputs of a device.
use sensaurus.Prelude.{
  ℕ, zero, suc, ◌<◌, ◌≡◌, refl, sym, ap, ◌∙◌, arith, true, false, List, [], ◌∷◌, ◌++◌, append_assoc,
  length, ◌==◌, if◌then◌else◌, Bool-cases, inl, inr, Text, All, codes,
}
use sensaurus.CText.Number.{Printer}
use sensaurus.CheckStream.{CheckStream, write_all, crlf}
use sensaurus.CheckStream.Buffer.{IsLineByte, IsReady, frame, write_all-append}
use sensaurus.CheckStream.Lines.{write_line}
use sensaurus.Sensaur.Parse.{message, fields}
use sensaurus.SensaurDevice.{Component}
use sensaurus.Prelude.{join}
use sensaurus.Hub.Actuators.{output_parts, print_parts}

print_parts-write_all :
    (p : Printer) (out : CheckStream) (parts : List Text)
    → print_parts p out parts ≡ write_all p false out (join parts ++ crlf)
unfolding print_parts
print_parts-write_all p out [] = refl
print_parts-write_all p out (t ∷ ts) =
    print_parts-write_all p (write_all p false out t) ts
    ∙ sym (write_all-append p false out t (join ts ++ crlf))
    ∙ ap (write_all p false out) (sym (append_assoc t (join ts) crlf))

module _ {Float : Type 0} (fixed : Float → Text) where
  -- The values of the outputs among the first `n` components.
  unfoldable pub output_values : List (Component Float) → ℕ → List Text
  output_values [] n = []
  output_values (c ∷ cs) zero = []
  output_values (c ∷ cs) (suc n) =
      let others = output_values cs n in
      if c.dir == b'o' then fixed c.actuator_value ∷ others else others

  output_parts-fields :
      (cs : List (Component Float)) (n : ℕ)
      → join (output_parts fixed cs n false) ≡ fields b',' (output_values cs n)
  unfolding output_parts output_values
  output_parts-fields [] n = refl
  output_parts-fields (c ∷ cs) zero = refl
  output_parts-fields (c ∷ cs) (suc n) = elim (Bool-cases (c.dir == b'o')) [
    | inl output ↦
        rw (output_parts, output_values, output)
          (ap (λ t. b',' ∷ (fixed c.actuator_value ++ t)) (output_parts-fields cs n))
    | inr input ↦ rw (output_parts, output_values, input) (output_parts-fields cs n)
  ]

  output_parts-message :
      (cs : List (Component Float)) (n : ℕ)
      → 0 < length (output_values cs n)
      → codes "s:" ++ join (output_parts fixed cs n true)
        ≡ message b',' (codes "s") (output_values cs n)
  unfolding output_parts output_values
  output_parts-message [] n h = absurd (omega arith)
  output_parts-message (c ∷ cs) zero h = absurd (omega arith)
  output_parts-message (c ∷ cs) (suc n) h = elim (Bool-cases (c.dir == b'o')) [
    | inl output ↦
        rw (output_parts, output_values, output)
          (ap (λ t. codes "s:" ++ (fixed c.actuator_value ++ t)) (output_parts-fields cs n))
    | inr input ↦
        let more : 0 < length (output_values cs n) = ground (arith, h) in
        rw (output_parts, output_values, input) (output_parts-message cs n more)
  ]

  -- In the build without USE_SWSERIAL, a device with at least one output is told the values of all its outputs, in order, in one
  -- message of the form that its `parseMessage` takes apart, with the checksum behind it, on a
  -- stream that is between lines, where the values hold no NUL and no line end.
  pub print_parts_message :
      (p : Printer) (out : CheckStream) (cs : List (Component Float)) (n : ℕ)
      → 0 < length (output_values cs n)
      → All IsLineByte (message b',' (codes "s") (output_values cs n))
      → IsReady out
      → let t = print_parts p out (codes "s:" ∷ output_parts fixed cs n true) in
        (t.sent ≡ out.sent ++ frame p false (message b',' (codes "s") (output_values cs n)))
        × IsReady t
  print_parts_message p out cs n h plain ready =
      let text = output_parts-message cs n h in
      let whole : print_parts p out (codes "s:" ∷ output_parts fixed cs n true)
          ≡ write_all p false out (message b',' (codes "s") (output_values cs n) ++ crlf) =
        print_parts-write_all p out (codes "s:" ∷ output_parts fixed cs n true)
        ∙ ap (λ t. write_all p false out (t ++ crlf)) text in
      rw whole (write_line p false (message b',' (codes "s") (output_values cs n)) out plain ready)
