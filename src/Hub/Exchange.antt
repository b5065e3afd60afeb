-- ===== src/Hub/Exchange.antt =====
-- A whole answer of a device: its bytes on the line, its checksum, and what the hub makes of it.
mod Handled
pub use Handled.{at-with_device}
use Handled.{
  with_device-at, heard, heard_devices, process_good, process_garbled, handle_reception_lem,
}
use sensaurus.Prelude.{
  ℕ, ◌+◌, ◌<◌, ◌≡◌, refl, ap, ◌∙◌, arith, Bool, true, false, List, [], ◌∷◌, ◌++◌, some, set,
  get_elem?, get_elem?-lt, get_elem?-set_self, length, ==_refl, ◌==◌, Bool-cases, inl, inr, Text,
  All, codes,
}
use sensaurus.CText.{c_str}
use sensaurus.CText.Number.{Printer}
use sensaurus.Crc.{crc_of}
use sensaurus.Sensaur.{esp32, checksum_ok}
use sensaurus.Sensaur.Checksum.{HasNoBar, IsPlain-esp32, checksum_ok-printed}
use sensaurus.Crc.Detect.{crc_of-lt}
use sensaurus.Hub.Take.{give_values, take_message_values}
use sensaurus.Sensaur.Parse.{message, IsMessage}
use sensaurus.SensaurDevice.{Device, responded, reset_error_count, inc_error_count}
use sensaurus.Hub.{
  Hub, with_device, emit, set_last_error, take_message, echo_message, accept_message,
  refuse_message, process_message_from_device, led, send_device_info, err_checksum,
}
use sensaurus.Hub.Receive.{
  Reception, no_reception, receive, reconnect, handle_reception, wait_for_response,
}
use sensaurus.Hub.Response.{InTime, bytes_of, IsPrintable, receive_line}

module _ {Float : Type 0} where
  module _ (dec : ℕ → Text) where
    module _ (t : ℕ) (reads rest : List (ℕ × ℕ)) (s : Hub Float) (time i : ℕ) (d : Device Float)
        (in_time : InTime s.config.response_timeout reads)
        (printable : All IsPrintable (bytes_of reads)) (some_bytes : 0 < length reads)
        (short : length reads < 200) (found : get_elem? s.devices i ≡ some d) where
      -- An answer that comes in time with a right checksum is taken over: the device counts as
      -- connected and as having answered.
      wait_for_response_good :
          (text : Text) (d' : Device Float) (described : Bool)
          → checksum_ok esp32 (bytes_of reads) true ≡ (true, text)
          → take_message (heard d) text ≡ some (d', described)
          → (s' : Hub Float) × (wait_for_response dec s time i (reads ++ (13, t) ∷ rest) ≡ some s')
            × (get_elem? s'.devices i ≡ some (responded d'))
      unfolding wait_for_response
      wait_for_response_good text d' described good taken =
          let r = receive s.config.response_timeout (reads ++ (13, t) ∷ rest) no_reception in
          let (line, index, ascii) =
            receive_line s.config.response_timeout t reads rest in_time printable short in
          let pos : (r.index == 0) ≡ false = ground (arith, index) in
          let (at_start, count) = heard_devices s i d found in
          let (s', done, devices, counted) =
            process_good dec (with_device (with_device s i reset_error_count) i reconnect) time i
              (bytes_of reads) text (heard d) d' described good at_start taken in
          let inside : get_elem? s'.devices i ≡ some d' =
            ap (λ ds. get_elem? ds i) devices
            ∙ get_elem?-set_self _ i d' (get_elem?-lt _ i (heard d) at_start) in
          let (ends, answered) =
            handle_reception_lem dec s s' time i r d d' (bytes_of reads) ascii pos line done
              inside in
          (with_device s' i responded, ends, answered)

      -- An answer of a connected device that comes in time, in fewer than 200 printable characters,
      -- with a wrong checksum changes nothing of the device but its counters: one error more is
      -- counted for the hub, the device's own count is 1 whatever it was before, and the device
      -- counts as having answered.
      pub wait_for_response_garbled :
          d.connected ≡ true
          → (checksum_ok esp32 (bytes_of reads) true).0 ≡ false
          → (s' : Hub Float) × (wait_for_response dec s time i (reads ++ (13, t) ∷ rest) ≡ some s')
            × (get_elem? s'.devices i ≡ some (record d { error_count = 1; no_response_count = 0 }))
            × (s'.err_count ≡ s.err_count + 1)
      unfolding wait_for_response reset_error_count inc_error_count responded
      wait_for_response_garbled connected bad =
          let r = receive s.config.response_timeout (reads ++ (13, t) ∷ rest) no_reception in
          let (line, index, ascii) =
            receive_line s.config.response_timeout t reads rest in_time printable short in
          let pos : (r.index == 0) ≡ false = ground (arith, index) in
          let (at_start, count) = heard_devices s i d found in
          let (s', done, devices, counted) =
            process_garbled dec (with_device (with_device s i reset_error_count) i reconnect) time i
              (bytes_of reads) (heard d) bad at_start in
          let blamed = (inc_error_count (heard d)).0 in
          let inside : get_elem? s'.devices i ≡ some blamed =
            ap (λ ds. get_elem? ds i) devices
            ∙ get_elem?-set_self _ i blamed (get_elem?-lt _ i (heard d) at_start) in
          let (ends, answered) =
            handle_reception_lem dec s s' time i r d blamed (bytes_of reads) ascii pos line done
              inside in
          let known : heard d ≡ reset_error_count d = rw connected in
          (
            with_device s' i responded,
            ends,
            answered ∙ ap (λ e. some (responded (inc_error_count e).0)) known,
            ap (λ h. h.err_count) (with_device-at s' i blamed responded inside)
                ∙ counted
                ∙ ap (λ n. n + 1) count,
          )

      pub wait_for_response_given :
          (p : Printer) (fs : List Text)
          → d.connected ≡ true
          → IsMessage 7 b',' (codes "v") fs
          → HasNoBar (message b',' (codes "v") fs)
          → bytes_of reads
            ≡ message b',' (codes "v") fs
              ++ b'|' ∷ p.hex (crc_of 0xffff (message b',' (codes "v") fs))
          → (s' : Hub Float) × (wait_for_response dec s time i (reads ++ (13, t) ∷ rest) ≡ some s')
            × (get_elem? s'.devices i
                ≡ some (record d {
                  error_count = 0;
                  no_response_count = 0;
                  components = give_values d.components d.component_count fs;
                }))
      unfolding reset_error_count responded
      wait_for_response_given p fs connected ok no_bar sent =
          let m = message b',' (codes "v") fs in
          let crc = crc_of 0xffff m in
          let good : checksum_ok esp32 (bytes_of reads) true ≡ (true, m) = rw sent (
            checksum_ok-printed p esp32 true m crc no_bar (IsPlain-esp32 m)
              (crc_of-lt 0xffff m (omega arith))
            ∙ rw (==_refl crc)) in
          let known : heard d ≡ reset_error_count d = rw connected in
          let taken : take_message (heard d) m
              ≡ some (
                record (reset_error_count d) {
                  components = give_values d.components d.component_count fs;
                },
                false,
              ) =
            ap (λ e. take_message e m) known ∙ take_message_values (reset_error_count d) fs ok in
          wait_for_response_good m _ false good taken
