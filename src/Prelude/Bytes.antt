-- ===== src/Prelude/Bytes.antt =====
-- Machine words and bytes as native numbers, text literals as byte lists, and the check of a
-- statement at every pair of bytes.
use Prim.Native.Char.{code}
use Prim.Native.String.{String}
use Prim.Native.Nat.{ℕ, zero, suc, ◌*◌, ◌/◌, ◌%◌, ◌^◌, ◌<◌}
use mathlib.Core.Path.{◌≡◌}
use mathlib.Core.Bool.{Bool, true, ◌&&◌}
use mathlib.Core.List.{List, [], ◌∷◌, ◌++◌}
use native.Mathlib.Omega.{arith}

abbrev pub u8 : ℕ → ℕ
u8 n = n % 2 ^ 8

abbrev pub u16 : ℕ → ℕ
u16 n = n % 2 ^ 16

abbrev pub u32 : ℕ → ℕ
u32 n = n % 2 ^ 32

infixl 75 ◌<<<◌ ◌>>>◌
abbrev pub ◌<<<◌ : ℕ → ℕ → ℕ
x <<< k = x * 2 ^ k

abbrev pub ◌>>>◌ : ℕ → ℕ → ℕ
x >>> k = x / 2 ^ k

-- The characters of a C string, without the NUL that ends it.
abbrev pub Text : Type 0
Text = List ℕ

-- A literal of the source; each one is ASCII.
abbrev pub codes : String → Text
codes String.[] = []
codes (String.◌∷◌ c s) = code c ∷ codes s

-- All the texts, one after another.
abbrev pub join : List Text → Text
join [] = []
join (t ∷ ts) = t ++ join ts

-- A test at every number under a bound.
unfoldable pub holds_under : (ℕ → Bool) → ℕ → Bool
holds_under test zero = true
holds_under test (suc bound) = holds_under test bound && test bound

pub holds_under-true :
    (test : ℕ → Bool) (bound b : ℕ) → b < bound → holds_under test bound ≡ true → test b ≡ true
unfolding holds_under
holds_under-true test (suc bound) b small all = ground (arith, holds_under-true test bound b)
holds_under-true test zero b small all = absurd (omega arith)

-- Every pair of bytes.
unfoldable pub all_bytes : (ℕ → ℕ → Bool) → Bool
unfolding holds_under
all_bytes p = holds_under (λ a. holds_under (p a) 256) 256

pub all_bytes_sound :
    (p : ℕ → ℕ → Bool) (a b : ℕ) → all_bytes p ≡ true → a < 256 → b < 256 → p a b ≡ true
unfolding all_bytes
all_bytes_sound p a b h ha hb =
    holds_under-true (p a) 256 b hb (holds_under-true (λ a. holds_under (p a) 256) 256 a ha h)
