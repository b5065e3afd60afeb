-- ===== src/Hub/Values.antt =====
-- What the inputs of a device hold once it has answered.
use sensaurus.Prelude.{
  ℕ, ◌<◌, ◌≡◌, true, List, ◌∷◌, ◌++◌, some, get_elem?, length, Text, All, codes,
}
use sensaurus.CText.Number.{Printer}
use sensaurus.Crc.{crc_of}
use sensaurus.Sensaur.Checksum.{HasNoBar}
use sensaurus.Sensaur.Parse.{message, IsMessage}
use sensaurus.SensaurDevice.{Component, Device}
use sensaurus.Hub.{Hub}
use sensaurus.Hub.Receive.{wait_for_response}
use sensaurus.Hub.Response.{InTime, bytes_of, IsPrintable}
use sensaurus.Hub.Take.{give_values}
use sensaurus.Hub.Take.Held.{HoldValues, IsValue, give_values-HoldValues}
use sensaurus.Hub.Exchange.{wait_for_response_given}

module _ {Float : Type 0} (dec : ℕ → Text) (t : ℕ) (reads rest : List (ℕ × ℕ)) (s : Hub Float)
    (time i : ℕ) (d : Device Float) where
  -- A connected device that answers with a message of up to seven values and its checksum, in time
  -- and in fewer than 200 printable characters, in the build without USE_SWSERIAL, has those values
  -- as the strings of its inputs afterwards, the n-th value at the n-th input among the components
  -- in use, as far as there are both; nothing else of a component changes, and both counters of the
  -- device are reset. The values have at most 9 characters each and are free of
  -- colon, comma, mark and NUL, and the arrays that hold them have their declared size.
  pub wait_for_response_values :
      InTime s.config.response_timeout reads
      → All IsPrintable (bytes_of reads)
      → 0 < length reads
      → length reads < 200
      → get_elem? s.devices i ≡ some d
      → (p : Printer) (fs : List Text) → d.connected ≡ true
      → IsMessage 7 b',' (codes "v") fs
      → HasNoBar (message b',' (codes "v") fs)
      → All (λ c. length c.value ≡ 10) d.components
      → All IsValue fs
      → bytes_of reads
        ≡ message b',' (codes "v") fs ++ b'|' ∷ p.hex (crc_of 0xffff (message b',' (codes "v") fs))
      → (s' : Hub Float) × (es : List (Component Float)) × (wait_for_response dec s time i
            (reads ++ (13, t) ∷ rest)
          ≡ some s')
        × (get_elem? s'.devices i
            ≡ some (record d { error_count = 0; no_response_count = 0; components = es }))
        × HoldValues d.components d.component_count fs es
  wait_for_response_values in_time printable some_bytes short found p fs connected ok no_bar sizes
        small sent =
      let (s', ends, given) =
        wait_for_response_given dec t reads rest s time i d in_time printable some_bytes short found
          p fs connected ok no_bar sent in
      (
        s',
        give_values d.components d.component_count fs,
        ends,
        given,
        give_values-HoldValues d.components d.component_count fs sizes small,
      )
