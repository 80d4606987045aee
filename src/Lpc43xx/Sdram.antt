-- ===== src/Lpc43xx/Sdram.antt =====
-- The setup of SDRAM of examples/lpc43xx_default/shared/board.c, which slows the core down where it
-- is too fast.
use halm_examples.Base.{ℕ, true}
use halm_examples.Pll.{Search}

abbrev candidate : (error multiplier : ℕ) → Search
candidate error multiplier = record { error = error; div = 2; mul = multiplier; found = true }
