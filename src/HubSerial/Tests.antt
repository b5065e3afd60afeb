-- ===== src/HubSerial/Tests.antt =====
-- A ring of four bytes and a line that carries a letter.
use sensaurus.Prelude.{
  ℕ, ◌≡◌, ◌+◌, refl, arith, Bool, true, false, List, [], ◌∷◌, ◌++◌, ◌==◌, if◌then◌else◌,
}
use sensaurus.HubSerial.{HubSerial, read, peek, store}
use sensaurus.HubSerial.Ring.{IsRing, received, unread, TakesFirst, read_refines, store_refines}

-- Two bytes are unread, across the end of the buffer.
abbrev ring : HubSerial
ring = record {
  read_mode = false;
  bit_time = 1000;
  in_pos = 1;
  out_pos = 3;
  buff_size = 4;
  buffer = 66 ∷ 0 ∷ 0 ∷ 65 ∷ [];
  overflow = false;
}

ring-IsRing : IsRing ring
ring-IsRing = record {
  positive = omega arith;
  small = omega arith;
  storage = refl;
  in_fits = omega arith;
  out_fits = omega arith;
}

two_bytes : received ring ≡ 65 ∷ 66 ∷ []
two_bytes = refl

read_refines_example :
    let (out, t) = read ring in TakesFirst ring out t × (peek ring ≡ out) × IsRing t
read_refines_example = read_refines ring ring-IsRing

store_refines_example :
    let t = store ring 67 in
    (received t ≡ (if unread ring + 1 == 4 then received ring else received ring ++ 67 ∷ []))
    × (t.overflow ≡ (if unread ring + 1 == 4 then true else false))
    × IsRing t
store_refines_example = store_refines ring 67 ring-IsRing

abbrev idle : List (Bool × ℕ)
idle = (true, 0) ∷ (true, 1) ∷ []

abbrev timed_ring : HubSerial
timed_ring = record ring { bit_time = 6250 }
