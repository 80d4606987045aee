-- ===== src/Base/Bits.antt =====
-- Bits of a register: what `|= mask` and `&= ~mask` do to each of them.
use Prim.Native.Nat.{
  ℕ, zero, suc, ◌+◌, ◌-◌, ◌*◌, ◌/◌, ◌%◌, ◌^◌, ◌≤◌, ◌<◌, min, max, bit_and, bit_or, digits,
  bit_and-bitwise, bit_or-bitwise,
}
use mathlib.Core.Path.{◌≡◌, refl, ap}
use mathlib.Core.Logic.{◌≢◌}
use native.Mathlib.Nat.{pow-suc}
use native.Mathlib.Omega.{arith}

-- Bit `i` of a word, counted from the lowest.
unfoldable pub bit : ℕ → ℕ → ℕ
bit x zero = x % 2
bit x (suc i) = bit (x / 2) i

pub bit-le-one : (x i : ℕ) → bit x i ≤ 1
unfolding bit
bit-le-one x zero = omega arith
bit-le-one x (suc i) = bit-le-one (x / 2) i

pub bit-zero : (i : ℕ) → bit 0 i ≡ 0
unfolding bit
bit-zero zero = refl
bit-zero (suc i) = bit-zero i

-- An operation by digits acts on each bit, where `f` keeps to digits and `z` is what `f` makes of
-- the digits left when the first word has run out.
module _ (z : ℕ → ℕ) (f : ℕ → ℕ → ℕ) (digit : (x y : ℕ) → x ≤ 1 → y ≤ 1 → f x y ≤ 1)
    (left : (b i : ℕ) → bit (z b) i ≡ f 0 (bit b i)) where
  bit-digits : (n a b i : ℕ) → a ≤ n → bit (digits z f n a b) i ≡ f (bit a i) (bit b i)
  unfolding bit
  bit-digits zero zero b i h = rw (bit-zero i) (left b i)
  bit-digits zero (suc a) b i h = absurd (omega arith)
  bit-digits (suc n) zero b i h = rw (bit-zero i) (left b i)
  bit-digits (suc n) (suc a) b zero h =
      omega (arith, digit (suc a % 2) (b % 2) (omega arith) (omega arith))
  bit-digits (suc n) (suc a) b (suc i) h =
      let q = digits z f n (suc a / 2) (b / 2) in
      let e : (q * 2 + f (suc a % 2) (b % 2)) / 2 ≡ q =
        omega (arith, digit (suc a % 2) (b % 2) (omega arith) (omega arith)) in
      rw e (bit-digits n (suc a / 2) (b / 2) i (omega arith))

pub bit-bit_or : (a b i : ℕ) → bit (bit_or a b) i ≡ max (bit a i) (bit b i)
bit-bit_or a b i =
    rw (bit_or-bitwise a b)
      (bit-digits (λ b. b) max (λ x y p q. omega arith) (λ b i. omega arith) a a b i (omega arith))

pub bit-bit_and : (a b i : ℕ) → bit (bit_and a b) i ≡ min (bit a i) (bit b i)
bit-bit_and a b i = rw (bit_and-bitwise a b) (
    bit-digits (λ b. zero) min (λ x y p q. omega arith) (λ b i. omega (arith, bit-zero i)) a a b i
      (omega arith))

-- `1 << k`
abbrev pub flag : ℕ → ℕ
flag k = 2 ^ k

pub bit-flag_self : (k : ℕ) → bit (flag k) k ≡ 1
unfolding bit
bit-flag_self zero = refl
bit-flag_self (suc k) =
    let e : 2 ^ suc k / 2 ≡ 2 ^ k = omega (arith, pow-suc 2 k) in rw e (bit-flag_self k)

pub bit-flag_ne : (k i : ℕ) → k ≢ i → bit (flag k) i ≡ 0
unfolding bit
bit-flag_ne zero zero h = absurd (h refl)
bit-flag_ne zero (suc i) h = bit-zero i
bit-flag_ne (suc k) zero h = omega (arith, pow-suc 2 k)
bit-flag_ne (suc k) (suc i) h =
    let e : 2 ^ suc k / 2 ≡ 2 ^ k = omega (arith, pow-suc 2 k) in
    rw e (bit-flag_ne k i (λ p. h (ap suc p)))

-- `~m` of a word of `w` bits
unfoldable pub complement : ℕ → ℕ → ℕ
complement w m = 2 ^ w - 1 - m

pub bit-complement : (w m i : ℕ) → m < 2 ^ w → i < w → bit (complement w m) i ≡ 1 - bit m i
unfolding complement bit
bit-complement zero m i h lt = absurd (omega arith)
bit-complement (suc w) m zero h lt = omega (arith, pow-suc 2 w)
bit-complement (suc w) m (suc i) h lt =
    let e : (2 ^ suc w - 1 - m) / 2 ≡ 2 ^ w - 1 - m / 2 = omega (arith, pow-suc 2 w) in
    rw e (bit-complement w (m / 2) i (omega (arith, pow-suc 2 w)) (omega arith))

-- `r |= m` and `r &= ~m` on a 32-bit register
unfoldable pub set_mask : ℕ → ℕ → ℕ
set_mask r m = bit_or r m

unfoldable pub clear_mask : ℕ → ℕ → ℕ
clear_mask r m = bit_and r (complement 32 m)

pub bit-set_mask : (r m i : ℕ) → bit (set_mask r m) i ≡ max (bit r i) (bit m i)
unfolding set_mask
bit-set_mask r m i = bit-bit_or r m i

pub bit-clear_mask :
    (r m i : ℕ) → m < 2 ^ 32 → i < 32 → bit (clear_mask r m) i ≡ min (bit r i) (1 - bit m i)
unfolding clear_mask
bit-clear_mask r m i h lt =
    omega (arith, bit-bit_and r (complement 32 m) i, bit-complement 32 m i h lt)
