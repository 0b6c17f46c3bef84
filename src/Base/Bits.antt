-- ===== src/Base/Bits.antt =====
-- Bit masks on one byte as arithmetic: a table of at most 256 entries, checked by evaluation.
use Prim.Native.Nat.{ℕ, zero, suc, ◌+◌, ◌*◌, ◌/◌, ◌%◌, ◌<◌, bit_and}
use mathlib.Core.Path.{◌≡◌, refl}
use mathlib.Core.Logic.{inl, inr}
use mathlib.Core.Bool.{Bool, true, ◌&&◌}
use native.Mathlib.Omega.{arith}
use palm_sync_daemon.Base.Tests.{◌==◌, ==_iff, Bool-cases}

-- Whether the two functions give the same number for the first `size` arguments.
agree : (f g : ℕ → ℕ) (size : ℕ) → Bool
agree f g zero = true
agree f g (suc i) = (f i == g i) && agree f g i

agree_lem : (f g : ℕ → ℕ) (size : ℕ) → agree f g size ≡ true → (i : ℕ) → i < size → f i ≡ g i
unfolding agree
agree_lem f g zero same i small = absurd (omega arith)
agree_lem f g (suc last) same i small = elim (Bool-cases (i == last)) [
  | inl here ↦ ground (arith, (==_iff i last).0 here)
  | inr before ↦ agree_lem f g last (ground arith) i (ground arith)
]

byte_eq : (f g : ℕ → ℕ) → agree f g 256 ≡ true → (x : ℕ) → x < 256 → f x ≡ g x
byte_eq f g table = agree_lem f g 256 table

-- The low and the high half of a byte.
pub low_nibble : (x : ℕ) → x < 256 → bit_and x 0x0f ≡ x % 16
unfolding agree
low_nibble = byte_eq _ _ refl

pub high_nibble : (x : ℕ) → x < 256 → bit_and x 0xf0 ≡ x / 16 * 16
unfolding agree
high_nibble = byte_eq _ _ refl

-- Every bit but the one of weight 64.
pub without_64 : (x : ℕ) → x < 256 → bit_and x 0xbf ≡ x / 128 * 128 + x % 64
unfolding agree
without_64 = byte_eq _ _ refl
