-- ===== src/HubSerial/Ring.antt =====
-- The receive buffer of HubSerial as a queue of bytes that holds one less than its size.
use native.Mathlib.Nat.{mod-eq_of_lt, mod_self}
use sensaurus.Prelude.{
  ℕ, zero, suc, ◌+◌, ◌-◌, ◌%◌, ◌^◌, ◌<◌, ◌≡◌, ◌≢◌, refl, sym, ◌∙◌, ap, ap₂, arith, true, false,
  List, [], ◌∷◌, ◌++◌, ◌==◌, get_or, set, length, length-set, if◌then◌else◌, Option, none, some,
  leb, Bool-cases, inl, inr,
}
use sensaurus.HubSerial.{HubSerial, next_index, read, available, flush, peek, store}

pub record IsRing (s : HubSerial) : Type 0 where
  pub positive : 0 < s.buff_size
  pub small : s.buff_size < 2 ^ 31
  pub storage : length s.buffer ≡ s.buff_size
  pub in_fits : s.in_pos < s.buff_size
  pub out_fits : s.out_pos < s.buff_size

-- The number of steps round the ring from index `a` to index `b`.
abbrev pub distance : ℕ → ℕ → ℕ → ℕ
distance size a b = if leb a b then b - a else b + size - a

-- The `n` bytes from index `a` on.
abbrev pub bytes_from : List ℕ → ℕ → ℕ → ℕ → List ℕ
bytes_from buf size a zero = []
bytes_from buf size a (suc n) = get_or buf a 0 ∷ bytes_from buf size (next_index size a) n

abbrev pub unread : HubSerial → ℕ
unread s = distance s.buff_size s.out_pos s.in_pos

abbrev pub received : HubSerial → List ℕ
received s = bytes_from s.buffer s.buff_size s.out_pos (unread s)

next_index_lem :
    (size a : ℕ)
    → a < size
    → size < 2 ^ 31
    → next_index size a ≡ (if a + 1 == size then 0 else a + 1)
next_index_lem size a h small = elim (Bool-cases (a + 1 == size)) [
  | inl last ↦ rw last (
      let whole : (a + 1) % 2 ^ 32 ≡ size = ground arith in
      ap (λ t. t % size) whole ∙ mod_self size)
  | inr more ↦
      rw more
        (let lt : a + 1 < size = ground arith in ap (λ t. t % size) (omega arith) ∙ mod-eq_of_lt lt)
]

distance-next :
    (size a b : ℕ)
    → a < size
    → b < size
    → size < 2 ^ 31
    → a ≢ b
    → distance size a b ≡ suc (distance size (next_index size a) b)
distance-next size a b ha hb small ne = ground (arith, next_index_lem size a ha small)

get_or-set_self : (buf : List ℕ) (i v : ℕ) → i < length buf → get_or (set buf i v) i 0 ≡ v
get_or-set_self [] i v h = elim h [ ]
get_or-set_self (x ∷ buf) zero v h = refl
get_or-set_self (x ∷ buf) (suc i) v h = get_or-set_self buf i v (omega arith)

get_or-set_ne : (buf : List ℕ) (i j v : ℕ) → j ≢ i → get_or (set buf i v) j 0 ≡ get_or buf j 0
get_or-set_ne [] i j v h = refl
get_or-set_ne (x ∷ buf) zero zero v h = absurd (h refl)
get_or-set_ne (x ∷ buf) zero (suc j) v h = refl
get_or-set_ne (x ∷ buf) (suc i) zero v h = refl
get_or-set_ne (x ∷ buf) (suc i) (suc j) v h = get_or-set_ne buf i j v (λ e. h (ap suc e))

next_index-lt : (size a : ℕ) → 0 < size → next_index size a < size
next_index-lt size a h = omega arith

-- A byte written at the end of the unread ones becomes the last of them.
bytes_from-set :
    (buf : List ℕ) (size b v a n : ℕ)
    → size < 2 ^ 31
    → length buf ≡ size
    → a < size
    → b < size
    → distance size a b ≡ n
    → bytes_from (set buf b v) size a (suc n) ≡ bytes_from buf size a n ++ v ∷ []
bytes_from-set buf size b v a zero small sized ha hb e =
    let same : a ≡ b = ground arith in
    rw same (ap (λ x. x ∷ []) (get_or-set_self buf b v (omega arith)))
bytes_from-set buf size b v a (suc n) small sized ha hb e =
    let ne : a ≢ b = λ same. ground arith in
    ap₂ ◌∷◌ (get_or-set_ne buf b a v ne) (
      bytes_from-set buf size b v (next_index size a) n small sized
        (next_index-lt size a (omega arith)) hb
        (omega (arith, distance-next size a b ha hb small ne)))

bytes_from-suc :
    (s : HubSerial)
    → IsRing s
    → s.in_pos ≢ s.out_pos
    → received s
      ≡ get_or s.buffer s.out_pos 0
        ∷ received (record s { out_pos = next_index s.buff_size s.out_pos })
bytes_from-suc s r ne =
    ap (bytes_from s.buffer s.buff_size s.out_pos)
      (distance-next s.buff_size s.out_pos s.in_pos r.out_fits r.in_fits r.small (λ e. ne (sym e)))

length-bytes_from : (buf : List ℕ) (size a n : ℕ) → length (bytes_from buf size a n) ≡ n
length-bytes_from buf size a zero = refl
length-bytes_from buf size a (suc n) = ap suc (length-bytes_from buf size (next_index size a) n)

-- In a ring whose indices and size are sound, `available` counts the bytes received and not yet
-- read, in spite of the unsigned difference.
pub available_lem : (s : HubSerial) → IsRing s → available s ≡ length (received s)
unfolding available
available_lem s r =
    let counted = length-bytes_from s.buffer s.buff_size s.out_pos (unread s) in
    ground (arith, counted)

-- What a read leaves: nothing was there and nothing changed, or the first byte was taken.
abbrev pub TakesFirst : HubSerial → Option ℕ → HubSerial → Type 0
TakesFirst s none t = (received s ≡ []) × (t ≡ s)
TakesFirst s (some b) t = received s ≡ b ∷ received t

-- In a ring whose indices and size are sound, `read` takes the oldest byte received, `peek` looks
-- at it, and both say so if there is none. The ring stays sound.
pub read_refines :
    (s : HubSerial)
    → IsRing s
    → let (out, t) = read s in TakesFirst s out t × (peek s ≡ out) × IsRing t
unfolding read peek
read_refines s r = elim (Bool-cases (s.in_pos == s.out_pos)) [
  | inl empty ↦
      let nothing : unread s ≡ 0 = ground arith in
      rw empty ((ap (bytes_from s.buffer s.buff_size s.out_pos) nothing, refl), refl, r)
  | inr full ↦ rw full (
    bytes_from-suc s r (ground arith),
    refl,
    record {
      positive = r.positive;
      small = r.small;
      storage = r.storage;
      in_fits = r.in_fits;
      out_fits = next_index-lt s.buff_size s.out_pos r.positive;
    },
  )
]

-- In a ring whose indices and size are sound, a received byte goes behind those not yet read,
-- unless one less than the buffer's size is unread: then it is dropped, and the overflow is noted.
-- The ring stays sound.
pub store_refines :
    (s : HubSerial) (b : ℕ)
    → IsRing s
    → let t = store s b in
      (received t ≡ (if unread s + 1 == s.buff_size then received s else received s ++ b ∷ []))
      × (t.overflow ≡ (if unread s + 1 == s.buff_size then true else s.overflow))
      × IsRing t
unfolding store
store_refines s b r = elim (Bool-cases (next_index s.buff_size s.in_pos == s.out_pos)) [
  | inl full ↦
      let at_size : (unread s + 1 == s.buff_size) ≡ true =
        ground (arith, next_index_lem s.buff_size s.in_pos r.in_fits r.small) in
      rw (full, at_size)
        (
          refl,
          refl,
          record {
            positive = r.positive;
            small = r.small;
            storage = r.storage;
            in_fits = r.in_fits;
            out_fits = r.out_fits;
          },
        )
  | inr free ↦
      let below : (unread s + 1 == s.buff_size) ≡ false =
        ground (arith, next_index_lem s.buff_size s.in_pos r.in_fits r.small) in
      let one_more : distance s.buff_size s.out_pos (next_index s.buff_size s.in_pos)
          ≡ suc (unread s) =
        ground (arith, next_index_lem s.buff_size s.in_pos r.in_fits r.small) in
      rw (free, below)
        (
          ap (bytes_from (set s.buffer s.in_pos b) s.buff_size s.out_pos) one_more
              ∙ bytes_from-set s.buffer s.buff_size s.in_pos b s.out_pos (unread s) r.small
                  r.storage r.out_fits r.in_fits refl,
          refl,
          record {
            positive = r.positive;
            small = r.small;
            storage = length-set s.buffer s.in_pos b ∙ r.storage;
            in_fits = next_index-lt s.buff_size s.in_pos r.positive;
            out_fits = r.out_fits;
          },
        )
]

-- `flush` forgets what was received.
pub flush_lem : (s : HubSerial) → IsRing s → (received (flush s) ≡ []) × IsRing (flush s)
unfolding flush
flush_lem s r = (
  refl,
  record {
    positive = r.positive;
    small = r.small;
    storage = r.storage;
    in_fits = r.positive;
    out_fits = r.positive;
  },
)
