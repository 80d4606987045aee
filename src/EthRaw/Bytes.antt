-- ===== src/EthRaw/Bytes.antt =====
-- Numbers as bytes in a frame, in network order or the lowest byte first.
use halm_examples.Base.{
  ℕ, zero, suc, ◌+◌, ◌*◌, ◌/◌, ◌%◌, ◌^◌, ◌≡◌, refl, List, [], ◌∷◌, ◌++◌, arith, length,
}

-- `fromBigEndian16` and `fromBigEndian32` of the field at `a`
abbrev pub from_be16 : (ℕ → ℕ) → ℕ → ℕ
from_be16 f a = f a * 2 ^ 8 + f (a + 1)

abbrev pub from_be32 : (ℕ → ℕ) → ℕ → ℕ
from_be32 f a = from_be16 f a * 2 ^ 16 + from_be16 f (a + 2)

abbrev pub be16 : ℕ → List ℕ
be16 n = n / 2 ^ 8 % 2 ^ 8 ∷ n % 2 ^ 8 ∷ []

abbrev pub be32 : ℕ → List ℕ
be32 n = be16 (n / 2 ^ 16) ++ be16 n

-- The `k` lowest bytes, the lowest first.
abbrev pub low_bytes : ℕ → ℕ → List ℕ
low_bytes zero n = []
low_bytes (suc k) n = n % 2 ^ 8 ∷ low_bytes k (n / 2 ^ 8)

-- The `n` bytes from `a` on.
unfoldable pub slice : (ℕ → ℕ) → ℕ → ℕ → List ℕ
slice f a zero = []
slice f a (suc n) = f a ∷ slice f (a + 1) n

pub slice-add : (f : ℕ → ℕ) (a n m : ℕ) → slice f a (n + m) ≡ slice f a n ++ slice f (a + n) m
unfolding slice
slice-add f a zero m =
    let e : a + 0 ≡ a = omega arith in let e' : 0 + m ≡ m = omega arith in rw (e, e')
slice-add f a (suc n) m =
    let e : suc n + m ≡ suc (n + m) = omega arith in
    let e' : a + suc n ≡ a + 1 + n = omega arith in rw (e, e', slice-add f (a + 1) n m)

pub length-slice : (f : ℕ → ℕ) (a n : ℕ) → length (slice f a n) ≡ n
unfolding slice
length-slice f a zero = refl
length-slice f a (suc n) = rw (length-slice f (a + 1) n)
