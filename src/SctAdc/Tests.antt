-- ===== src/SctAdc/Tests.antt =====
-- The driver of sct_adc.c at concrete inputs.
use halm_examples.Base.{ℕ, ◌<◌, ◌≡◌, refl, true, false, none, some, arith}
use halm_examples.Base.Bits.{bit}
use halm_examples.Sct.{busy}
use halm_examples.Sct.Laws.{marked}
use halm_examples.Sct.Steps.{failed, state_of}
use halm_examples.Sct.Sample.{library, laws, defs, blank, tables, first_free}
use halm_examples.SctAdc.{
  Config, SctAdc, adc_output_15, dma_0, dma_output_2, tmr_init, acquire_events, init_base, allocate,
  reserve, setup_timer, setup_memory, setup_reset,
}
use halm_examples.SctAdc.Runtime.{
  tmr_enable, tmr_disable, tmr_deinit, tmr_set_overflow, tmr_get_overflow,
}
use halm_examples.SctAdc.Release.{tmr_deinit-tmr_init, tmr_init-leak}
use halm_examples.SctAdc.Control.{
  Cleared, tmr_enable-tmr_disable, tmr_get_overflow-tmr_set_overflow,
}

abbrev config : Config
config = record {
  cycle = 25000;
  delay = 3;
  frequency = 1000000;
  adc = adc_output_15;
  dma = dma_output_2;
  part = false;
  channel = 0;
}

abbrev fresh : SctAdc library defs
fresh = record {
  base = tables;
  part = false;
  mask = 0;
  frequency = 0;
  adc = adc_output_15;
  dma = dma_0;
  adc_output = none;
  dma_output = none;
  conversion = 0;
  memory = 0;
  reset = 0;
  reg = blank;
}

abbrev made : SctAdc library defs
made = state_of (tmr_init library defs config fresh)

-- The ADC output is taken as well.
abbrev crowded : SctAdc library defs
crowded = record fresh { base = record tables { output = λ i. true } }

abbrev events_only : SctAdc library defs
events_only = state_of (acquire_events library defs config crowded)

events_of_made : (made.conversion ≡ 1) × (made.memory ≡ 3) × (made.reset ≡ 4)
unfolding tmr_init acquire_events init_base allocate reserve setup_timer setup_memory setup_reset
    marked first_free
events_of_made = (refl, refl, refl)

tmr_deinit-tmr_init_example : (tmr_deinit library defs made).base ≡ tables
unfolding tmr_init acquire_events init_base allocate reserve setup_timer setup_memory setup_reset
    marked first_free
tmr_deinit-tmr_init_example = tmr_deinit-tmr_init library defs laws config fresh made refl

tmr_init-leak_example :
    (s' : SctAdc library defs) × (tmr_init library defs config crowded ≡ failed busy s')
    × (tables.event s'.conversion ≡ false)
    × (s'.base.event s'.conversion ≡ true)
    × (s'.base.event s'.memory ≡ true)
    × (s'.base.event s'.reset ≡ true)
unfolding acquire_events init_base allocate marked first_free
tmr_init-leak_example = tmr_init-leak library defs laws config crowded events_only 15 refl refl refl

tmr_enable-tmr_disable_example :
    Cleared library defs 4 fresh (tmr_enable library defs (tmr_disable library defs fresh))
    × ((tmr_enable library defs (tmr_disable library defs fresh)).reg.evflag ≡ 0)
    × ((i : ℕ) → i < 32 → bit 4 i ≡ 1 → bit ((tmr_disable library defs fresh).reg.ctrl false) i ≡ 1)
tmr_enable-tmr_disable_example = tmr_enable-tmr_disable library defs fresh (omega arith)

tmr_get_overflow-tmr_set_overflow_example :
    (s' : SctAdc library defs) × (tmr_set_overflow library defs 5000 fresh ≡ some s')
    × (tmr_get_overflow library defs s' ≡ 5000)
    × Cleared library defs 2 fresh s'
tmr_get_overflow-tmr_set_overflow_example =
    tmr_get_overflow-tmr_set_overflow library defs fresh 5000 (omega arith) (omega arith)
      (omega arith)
