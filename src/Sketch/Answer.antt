-- ===== src/Sketch/Answer.antt =====
-- What the devices send to the hub for a message that they have read.
use sensaurus.Prelude.{
  join, ℕ, zero, suc, ◌+◌, ◌<◌, ◌≤◌, ◌≡◌, refl, sym, ap, ◌∙◌, arith, true, List, [], ◌∷◌, ◌++◌,
  append_assoc, none, some, map, length, ◌==◌, if◌then◌else◌, Option-cases, inl, inr, Text, All,
  codes,
}
use sensaurus.CText.Number.{Printer}
use sensaurus.CheckStream.{CheckStream, write_all, crlf}
use sensaurus.CheckStream.Buffer.{IsLineByte, IsReady, frame, write_all-append}
use sensaurus.CheckStream.Lines.{write_line}
use sensaurus.Sensaur.{Parsed, arg, command}
use sensaurus.Sensaur.Shape.{arg-lt}
use sensaurus.Sensaur.Parse.{Reads, arg_list}
use sensaurus.Sketch.{print_line, echo_args, answer_error}

-- The fields as they are echoed, from the `i`-th on.
abbrev pub echo : ℕ → List Text → Text
echo i [] = []
echo i (f ∷ fs) = ((if i == 0 then b';' else b',') ∷ f) ++ echo (i + 1) fs

module _ (p : Printer) where
  print_line-write_all :
      (out : CheckStream) (parts : List Text)
      → print_line p out parts ≡ write_all p true out (join parts ++ crlf)
  unfolding print_line
  print_line-write_all out [] = refl
  print_line-write_all out (t ∷ ts) =
      print_line-write_all (write_all p true out t) ts
      ∙ sym (write_all-append p true out t (join ts ++ crlf))
      ∙ ap (write_all p true out) (sym (append_assoc t (join ts) crlf))

  -- Texts that are printed one after another, with a line end, make one frame on the line.
  pub print_line_lem :
      (out : CheckStream) (parts : List Text)
      → All IsLineByte (join parts)
      → IsReady out
      → ((print_line p out parts).sent ≡ out.sent ++ frame p true (join parts))
        × IsReady (print_line p out parts)
  print_line_lem out parts h ready =
      rw (print_line-write_all out parts) (write_line p true (join parts) out h ready)

  echo_args_lem :
      (r : Parsed) (out : CheckStream) (i : ℕ) (fs : List Text)
      → arg_list r i (length fs) ≡ map some fs
      → echo_args p out r i (length fs) ≡ some (write_all p true out (echo i fs))
  unfolding echo_args write_all
  echo_args_lem r out i [] e = refl
  echo_args_lem r out i (f ∷ fs) e =
      let first : arg r i ≡ some f = ground arith in
      let others : arg_list r (i + 1) (length fs) ≡ map some fs = ground arith in
      let mark = if i == 0 then b';' else b',' in
      rw (echo_args, first)
        (echo_args_lem r (write_all p true out (mark ∷ f)) (i + 1) fs others
          ∙ ap some (sym (write_all-append p true out (mark ∷ f) (echo (i + 1) fs))))

  echo_args_at :
      (r : Parsed) (out : CheckStream) (fs : List Text) (n : ℕ)
      → n ≡ length fs
      → arg_list r 0 (length fs) ≡ map some fs
      → echo_args p out r 0 n ≡ some (write_all p true out (echo 0 fs))
  echo_args_at r out fs n e given = rw e (echo_args_lem r out 0 fs given)

  -- A message that is not understood comes back as an error with its command and all the fields
  -- that were read of it, in one frame, where they hold no NUL and no line end.
  pub answer_error_lem :
      (r : Parsed) (out : CheckStream) (cmd : Text) (fs : List Text)
      → Reads cmd fs r
      → All IsLineByte (codes "e:" ++ cmd ++ echo 0 fs)
      → IsReady out
      → (out' : CheckStream) × (answer_error p out r ≡ some out')
        × (out'.sent ≡ out.sent ++ frame p true (codes "e:" ++ cmd ++ echo 0 fs))
        × IsReady out'
  unfolding answer_error
  answer_error_lem r out cmd fs reads h ready =
      let text = codes "e:" ++ cmd in
      let echoed =
        echo_args_at r (write_all p true out text) fs r.ret reads.ret_is reads.args_are in
      let whole : write_all p true (write_all p true (write_all p true out text) (echo 0 fs)) crlf
          ≡ write_all p true out ((text ++ echo 0 fs) ++ crlf) =
        ap (λ t. write_all p true t crlf) (sym (write_all-append p true out text (echo 0 fs)))
        ∙ sym (write_all-append p true out (text ++ echo 0 fs) crlf) in
      let (sent, again) = write_line p true (text ++ echo 0 fs) out h ready in
      (
        write_all p true out ((text ++ echo 0 fs) ++ crlf),
        rw (answer_error, reads.command_is, echoed) (ap some whole),
        sent,
        again,
      )

  echo_args_unset :
      (r : Parsed) (out : CheckStream) (i n : ℕ)
      → i ≤ length r.args
      → length r.args < i + n
      → echo_args p out r i n ≡ none
  unfolding echo_args
  echo_args_unset r out i zero lt h = absurd (omega arith)
  echo_args_unset r out i (suc n) lt h = elim (Option-cases (arg r i)) [
    | inl unset ↦ rw (echo_args, unset)
    | inr (text, given) ↦
        let inside : i < length r.args = arg-lt r i text given in
        rw (echo_args, given)
          (echo_args_unset r (write_all p true out ((if i == 0 then b';' else b',') ∷ text)) (i + 1)
            n (omega arith) (omega arith))
  ]

  -- Where a message gives more arguments than the array of pointers holds, as a garbled one does
  -- whose result is 255, the error answer reads a pointer behind the array or one never set.
  pub answer_error_unset :
      (r : Parsed) (out : CheckStream) → length r.args < r.ret → answer_error p out r ≡ none
  unfolding answer_error
  answer_error_unset r out h = rw (
    answer_error,
    echo_args_unset r (write_all p true out (codes "e:" ++ command r)) 0 r.ret (omega arith)
        (omega arith),
  )
