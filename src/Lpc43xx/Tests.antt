-- ===== src/Lpc43xx/Tests.antt =====
-- The board of Lpc43xx on a small chip.
use halm_examples.Base.{ℕ, zero, suc, ◌+◌, ◌^◌, ltb, if◌then◌else◌}
use halm_examples.Board.Enabled.{Enabled}

-- The zeros before the highest bit of a word of `n` bits.
abbrev leading_zeros : ℕ → ℕ → ℕ
leading_zeros zero x = 0
leading_zeros (suc n) x = if ltb x (2 ^ n) then 1 + leading_zeros n x else 0
