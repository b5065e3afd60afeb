-- ===== src/Crc/Mix.antt =====
-- One round of the checksum on bytes: which facts of its inputs can be read back from its output.
use sensaurus.Prelude.{
  ℕ, ◌+◌, ◌*◌, ◌/◌, ◌%◌, ◌<◌, bit_and, bit_or, bit_xor, ◌≡◌, refl, sym, ap, ap₂, ◌∙◌, arith, Bool,
  true, ◌&&◌, u16, ◌<<<◌, ◌>>>◌, ◌==◌, ltb, all_bytes, all_bytes_sound,
}

-- The round on the high byte of the checksum and on the data byte mixed with its low byte.
unfoldable pub mix : ℕ → ℕ → ℕ
mix hi e =
    let d2 = u16 (bit_xor e (bit_and (e <<< 4) 0xFF)) in
    u16 (
      bit_xor (bit_xor (bit_or (bit_and (d2 <<< 8) 0xFFFF) (bit_and hi 0xFF)) (d2 >>> 4))
        (d2 <<< 3))

-- The high byte of the round depends on `e` alone, and `unmix` inverts it.
unmix : ℕ → ℕ
unmix u = let g = bit_xor u (u >>> 5) in bit_and (bit_xor g (g <<< 4)) 0xFF

-- What the checks below say of each pair.
abbrev reads_back : ℕ → ℕ → Bool
reads_back a b = (unmix (mix a b / 256) == b) && (bit_xor (mix a b % 256) (mix 0 b % 256) == a)

abbrev splits : ℕ → ℕ → Bool
splits h l =
    (bit_and (h * 256 + l) 0xFF == l)
    && ltb (bit_xor h l) 256
    && (bit_xor (bit_xor h l) l == h)
    && (bit_xor h (bit_xor h l) == l)

reads_back_table : all_bytes reads_back ≡ true
unfolding all_bytes mix unmix
reads_back_table = refl

splits_table : all_bytes splits ≡ true
unfolding all_bytes
splits_table = refl

mix-reads_back :
    (a b : ℕ)
    → a < 256
    → b < 256
    → (unmix (mix a b / 256) ≡ b) × (bit_xor (mix a b % 256) (mix 0 b % 256) ≡ a)
mix-reads_back a b ha hb = ground (arith, all_bytes_sound reads_back a b reads_back_table ha hb)

splits_lem :
    (h l : ℕ)
    → h < 256
    → l < 256
    → (bit_and (h * 256 + l) 0xFF ≡ l)
      × (bit_xor h l < 256)
      × (bit_xor (bit_xor h l) l ≡ h)
      × (bit_xor h (bit_xor h l) ≡ l)
splits_lem h l hh hl = ground (arith, all_bytes_sound splits h l splits_table hh hl)

pub bit_xor-lt : (a b : ℕ) → a < 256 → b < 256 → bit_xor a b < 256
bit_xor-lt a b ha hb = (splits_lem a b ha hb).1

pub bit_xor-cancel_left :
    (a b c : ℕ) → a < 256 → b < 256 → c < 256 → bit_xor a b ≡ bit_xor a c → b ≡ c
bit_xor-cancel_left a b c ha hb hc e =
    sym (splits_lem a b ha hb).3 ∙ ap (bit_xor a) e ∙ (splits_lem a c ha hc).3

pub bit_xor-cancel_right :
    (a b c : ℕ) → a < 256 → b < 256 → c < 256 → bit_xor a c ≡ bit_xor b c → a ≡ b
bit_xor-cancel_right a b c ha hb hc e =
    sym (splits_lem a c ha hc).2 ∙ ap (λ t. bit_xor t c) e ∙ (splits_lem b c hb hc).2

-- The low byte of a checksum, as the code masks it.
pub bit_and_low : (crc : ℕ) → crc < 65536 → bit_and crc 0xFF ≡ crc % 256
bit_and_low crc h =
    ap (λ t. bit_and t 0xFF) (omega arith)
    ∙ (splits_lem (crc / 256) (crc % 256) (omega arith) (omega arith)).0

-- Two inputs of one round with one output are the same inputs.
pub mix_injective :
    (a b c d : ℕ) → a < 256 → b < 256 → c < 256 → d < 256 → mix a b ≡ mix c d → (a ≡ c) × (b ≡ d)
mix_injective a b c d ha hb hc hd e =
    let second : b ≡ d =
      sym (mix-reads_back a b ha hb).0
      ∙ ap (λ t. unmix (t / 256)) e
      ∙ (mix-reads_back c d hc hd).0 in
    (
      sym (mix-reads_back a b ha hb).1
          ∙ ap₂ (λ t u. bit_xor (t % 256) (mix 0 u % 256)) e second
          ∙ (mix-reads_back c d hc hd).1,
      second,
    )
