-- ===== src/EmcFlash/Tests.antt =====
-- The program of emc_flash/main.c on the sample chip.
use halm_examples.Base.{ℕ, ◌+◌, ◌/◌, ◌≤◌, ◌<◌, ◌≡◌, refl, ◌⊎◌, false, arith}
use halm_examples.Flash.Sample.{Phase, bus, conforming, used, cell}
use halm_examples.Flash.Transfer.{Holds, Done}
use halm_examples.EmcFlash.{memory_offset, pattern, main}
use halm_examples.EmcFlash.Sequence.{main_lem}

main_lem_example :
    Done
      (λ out.
        (out.0 ≡ false)
        × (out.2.phase ≡ Phase.read)
        × Holds bus out.2 (memory_offset / 2) (pattern 0 512)
        × ((j : ℕ)
            → (j < memory_offset / 2) ⊎ (memory_offset / 2 + 32768 ≤ j)
            → cell out.2 j ≡ cell used j))
      (main bus used)
main_lem_example = main_lem bus (conforming 1048576) used refl (omega arith)
