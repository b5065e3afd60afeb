-- ===== src/Hub/Response.antt =====
-- A device's answer on the line, and what the hub knows of the device behind it.
use native.Mathlib.Numerals.{add-one}
use sensaurus.Prelude.{
  ℕ, suc, ◌+◌, ◌<◌, ◌≤◌, ◌≡◌, refl, ap, ◌∙◌, arith, true, false, List, [], ◌∷◌, ◌++◌, append-nil,
  append_assoc, set, take, take-set-suc, length, length-append, length-set, ltb, Text, All,
}
use sensaurus.CText.{c_str}
use sensaurus.CheckStream.Buffer.{IsLineByte, c_str-set}
use sensaurus.Hub.Receive.{Reception, no_reception, receive}

-- The bytes of a text, each read before the time is over.
abbrev pub InTime : ℕ → List (ℕ × ℕ) → Type 0
InTime timeout reads = All (λ r. r.1 < timeout) reads

abbrev pub bytes_of : List (ℕ × ℕ) → Text
bytes_of [] = []
bytes_of ((c, t) ∷ reads) = c ∷ bytes_of reads

-- A printable character of ASCII.
abbrev pub IsPrintable : ℕ → Type 0
IsPrintable c = (32 ≤ c) × (c ≤ 127)

record Gathers (line : Text) (r : Reception) : Type 0 where
  index_is : r.index ≡ length line
  holds : take r.index r.message ≡ line
  size : length r.message ≡ 200
  ascii : r.non_ascii ≡ false

receive-step :
    (timeout c t : ℕ) (reads : List (ℕ × ℕ)) (r : Reception)
    → IsPrintable c
    → t < timeout
    → r.index < 199
    → receive timeout ((c, t) ∷ reads) r
      ≡ receive timeout reads (record r { message = set r.message r.index c; index = r.index + 1 })
unfolding receive
receive-step timeout c t reads r h lt room =
    let ascii : ltb 127 c ≡ false = ground arith in
    let plain : ltb c 32 ≡ false = ground arith in
    let in_time : ltb t timeout ≡ true = ground arith in
    let inside : ltb r.index 199 ≡ true = ground arith in
    rw (receive, ascii, plain, in_time, inside)

receive-Gathers :
    (timeout : ℕ) (line : Text) (reads rest : List (ℕ × ℕ)) (r : Reception)
    → InTime timeout reads
    → All IsPrintable (bytes_of reads)
    → length line + length reads < 200
    → Gathers line r
    → (r' : Reception) × (receive timeout (reads ++ rest) r ≡ receive timeout rest r')
      × Gathers (line ++ bytes_of reads) r'
receive-Gathers timeout line [] rest r h plain short w = (r, refl, rw (append-nil line) w)
receive-Gathers timeout line ((c, t) ∷ reads) rest r h plain short w =
    let next : Reception = record r { message = set r.message r.index c; index = r.index + 1 } in
    let w' : Gathers (line ++ c ∷ []) next = record {
      index_is = omega (arith, w.index_is, length-append line (c ∷ []));
      holds =
          rw add-one (take-set-suc r.index r.message c (omega (arith, w.index_is, w.size)))
          ∙ ap (λ m. m ++ c ∷ []) w.holds;
      size = length-set r.message r.index c ∙ w.size;
      ascii = w.ascii;
    } in
    let (r', steps, w'') =
      receive-Gathers timeout (line ++ c ∷ []) reads rest next h.1 plain.1
        (omega (arith, length-append line (c ∷ []))) w' in
    (
      r',
      receive-step timeout c t (reads ++ rest) r plain.0 h.0 (omega (arith, w.index_is)) ∙ steps,
      rw (append_assoc line (c ∷ []) (bytes_of reads)) at w'',
    )

printable-IsLineByte : (m : Text) → All IsPrintable m → All IsLineByte m
printable-IsLineByte [] h = tt
printable-IsLineByte (c ∷ m) h = (
  record {
    not_nul = λ e. ground (arith, h.0);
    not_cr = λ e. ground (arith, h.0);
    not_lf = λ e. ground (arith, h.0);
  },
  printable-IsLineByte m h.1,
)

pub length-bytes_of : (reads : List (ℕ × ℕ)) → length (bytes_of reads) ≡ length reads
length-bytes_of [] = refl
length-bytes_of (r ∷ reads) = ap suc (length-bytes_of reads)

-- A line of printable characters that comes in time, of fewer than 200 of them, is received as it
-- was sent, up to its line end, whatever comes behind it.
pub receive_line :
    (timeout t : ℕ) (reads rest : List (ℕ × ℕ))
    → InTime timeout reads
    → All IsPrintable (bytes_of reads)
    → length reads < 200
    → let r = receive timeout (reads ++ (13, t) ∷ rest) no_reception in
      (c_str (set r.message r.index 0) ≡ bytes_of reads)
      × (r.index ≡ length reads)
      × (r.non_ascii ≡ false)
unfolding receive
receive_line timeout t reads rest h plain short =
    let (r, steps, w) =
      receive-Gathers timeout [] reads ((13, t) ∷ rest) no_reception h plain (omega arith)
        (record { index_is = refl; holds = refl; size = refl; ascii = refl }) in
    let text : c_str (set r.message r.index 0) ≡ bytes_of reads =
      c_str-set r.index r.message (omega (arith, w.index_is, w.size, length-bytes_of reads))
        (rw w.holds (printable-IsLineByte (bytes_of reads) plain))
      ∙ w.holds in
    rw steps (text, w.index_is ∙ length-bytes_of reads, w.ascii)
