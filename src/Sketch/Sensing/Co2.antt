-- ===== src/Sketch/Sensing/Co2.antt =====
-- The carbon dioxide sensor: what its four bytes mean, and what the hub is told.
use sensaurus.Prelude.{
  ℕ, ◌+◌, ◌*◌, ◌<◌, ◌≡◌, refl, ap, ◌∙◌, arith, Bool, true, ◌&&◌, List, [], ◌∷◌, ◌++◌, some, ltb,
  ◌==◌, ==_iff, if◌then◌else◌, Bool-cases, inl, inr, codes, bit_and, bit_or, u8, u16, ◌<<<◌,
  all_bytes, all_bytes_sound, holds_under,
}
use sensaurus.CText.{text_eq}
use sensaurus.CheckStream.Buffer.{IsReady, frame}
use sensaurus.Sensaur.{Parsed}
use sensaurus.Sensaur.Parse.{Reads}
use sensaurus.Sketch.{Core}
use sensaurus.Sketch.Plain.{labelled-IsLineByte}
use sensaurus.Prelude.{join}
use sensaurus.Sketch.Answer.{print_line_lem}
use sensaurus.Sketch.Sensing.{
  Sensing, answer_value, sensing_message, fill_buffer, read_co2, co2_read_sensor, co2_message,
}

abbrev word_test : ℕ → ℕ → Bool
word_test high low =
    bit_or (u16 (bit_or 0 (bit_and high 0xFF) <<< 8)) (bit_and low 0xFF) == high * 256 + low

word_table : all_bytes word_test ≡ true
unfolding all_bytes holds_under
word_table = refl

word_lem :
    (high low : ℕ)
    → high < 256
    → low < 256
    → bit_or (u16 (bit_or 0 (bit_and high 0xFF) <<< 8)) (bit_and low 0xFF) ≡ high * 256 + low
word_lem high low hh hl =
    (==_iff _ (high * 256 + low)).0 (all_bytes_sound word_test high low word_table hh hl)

-- Four bytes are read as the number in the two in the middle, if the last one is the sum of the
-- others; -1 comes back for a wrong sum.
pub read_co2_lem :
    (status high low check : ℕ)
    → high < 256
    → low < 256
    → read_co2 (status ∷ high ∷ low ∷ check ∷ [])
      ≡ (if u8 (status + high + low) == check then high * 256 + low else 0xFFFF)
unfolding read_co2 fill_buffer
read_co2_lem status high low check hh hl = rw (word_lem high low hh hl)

module _ {Float Sensor : Type 0} (core : Core Float) (request : Sensor → List ℕ × Sensor) where
  -- A reading replaces the value that the device keeps, unless its sum is wrong or it is zero or
  -- more than 32767, which an `int` shows as negative; the value counts as valid all the same.
  pub co2_read_sensor_lem :
      (s : Sensing Sensor) (status high low check : ℕ) (next : Sensor)
      → request s.sensor ≡ (status ∷ high ∷ low ∷ check ∷ [], next)
      → high < 256
      → low < 256
      → let good = u8 (status + high + low) == check in
        let value = high * 256 + low in
        let t = co2_read_sensor core request s in
        (t.last ≡ (if good && (ltb 0 value && ltb value 32768) then value else s.last))
        × (t.valid ≡ true)
        × (t.sensor ≡ next)
  unfolding co2_read_sensor
  co2_read_sensor_lem s status high low check next e hh hl =
      elim (Bool-cases (u8 (status + high + low) == check)) [
        | inl good ↦ rw (e, read_co2_lem status high low check hh hl, good) (refl, refl, refl)
        | inr bad ↦ rw (e, read_co2_lem status high low check hh hl, bad) (refl, refl, refl)
      ]

  abbrev pub fresh : Sensing Sensor → Sensing Sensor
  fresh s = if s.valid then s else co2_read_sensor core request s

  -- At a request for values, on a stream that is between lines, the hub is told the value that was
  -- read behind its last request; only the first answer waits for a reading of its own.
  pub co2_message_value :
      (s : Sensing Sensor) (r : Parsed)
      → Reads (codes "v") [] r
      → IsReady s.out
      → (t : Sensing Sensor) × (co2_message core request s r ≡ some t)
        × (t.out.sent
            ≡ s.out.sent
              ++ frame core.printer true (join (codes "v:" ∷ core.dec (fresh s).last ∷ [])))
        × IsReady t.out
        × (t.valid ≡ true)
  unfolding co2_message sensing_message answer_value co2_read_sensor text_eq
  co2_message_value s r reads ready =
      let same : (fresh s).out ≡ s.out = elim (Bool-cases s.valid) [
        | inl valid ↦ rw valid
        | inr first ↦ rw first
      ] in
      let (sent, again) =
        print_line_lem core.printer (fresh s).out (codes "v:" ∷ core.dec (fresh s).last ∷ [])
          (labelled-IsLineByte (codes "v:") (core.dec (fresh s).last) (omega arith)
            (core.dec_is_plain (fresh s).last))
          (rw same ready) in
      (
        answer_value core (co2_read_sensor core request) s,
        rw (co2_message, sensing_message, reads.command_is),
        sent
            ∙ ap
                (λ o.
                  o.sent
                  ++ frame core.printer true (join (codes "v:" ∷ core.dec (fresh s).last ∷ [])))
                same,
        again,
        refl,
      )
