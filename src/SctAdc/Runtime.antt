-- ===== src/SctAdc/Runtime.antt =====
-- The operations of sct_adc.c on a timer that has been set up.
use halm_examples.Base.{
  ℕ, ◌+◌, ◌/◌, ◌%◌, ◌^◌, Bool, Option, none, some, leb, ltb, if◌then◌else◌, add32, sub32,
}
use halm_examples.Base.Bits.{flag, set_mask, clear_mask}
use halm_examples.Sct.{Regs, Defs, Library, at_part, at_index}
use halm_examples.SctAdc.{SctAdc, DmaOutput, dma_0, dma_1}

module _ (l : Library) (k : Defs) where
  open l use {deinit, release_event, release_output, set_frequency, get_clock}
  open k use {ctrl_halt, ctrl_stop, ctrl_pre_value, config_noreload}

  -- The DMA request of the memory event is taken back.
  unfoldable pub stop_dma : DmaOutput → ℕ → Regs → Regs
  stop_dma dma_0 e r = record r { dmareq0 = clear_mask r.dmareq0 (flag e) }
  stop_dma dma_1 e r = record r { dmareq1 = clear_mask r.dmareq1 (flag e) }
  stop_dma _ e r = r

  unfoldable pub drop_output : Option ℕ → SctAdc l k → SctAdc l k
  drop_output none s = s
  drop_output (some i) s = record s {
    reg = record (s.reg) {
      out_clr = at_index s.reg.out_clr i 0;
      out_set = at_index s.reg.out_set i 0;
    };
    base = release_output i s.base;
  }

  unfoldable pub drop_event : ℕ → SctAdc l k → SctAdc l k
  drop_event e s = record s {
    reg = record (s.reg) {
      ev_ctrl = at_index s.reg.ev_ctrl e 0;
      ev_state = at_index s.reg.ev_state e 0;
    };
    base = release_event e s.base;
  }

  -- The timer is halted and masked before anything is released.
  unfoldable pub halt : SctAdc l k → SctAdc l k
  halt s =
      let r = s.reg in
      record s {
        reg = record r {
          ctrl = at_part r.ctrl s.part ctrl_halt;
          even = clear_mask r.even s.mask;
          limit = at_part r.limit s.part 0;
        };
      }

  unfoldable pub tmr_deinit : SctAdc l k → SctAdc l k
  tmr_deinit s =
      let s₁ = halt s in
      let s₂ = record s₁ { reg = stop_dma s₁.dma s₁.memory s₁.reg } in
      let s₃ = drop_output s₂.dma_output s₂ in
      let s₄ = drop_output s₃.adc_output s₃ in
      let s₅ = drop_event s₄.reset s₄ in
      let s₆ = drop_event s₅.memory s₅ in
      let s₇ = drop_event s₆.conversion s₆ in
      record s₇ {
        reg = record (s₇.reg) { config = clear_mask s₇.reg.config (config_noreload s₇.part) };
        base = deinit s₇.base;
      }

  -- A write to the control half of the timer's part.
  abbrev pub with_ctrl : (ℕ → ℕ) → Bool → Regs → Regs
  with_ctrl f part r = record r { ctrl = at_part r.ctrl part (f (r.ctrl part)) }

  unfoldable pub tmr_enable : SctAdc l k → SctAdc l k
  tmr_enable s =
      let r = record (s.reg) { evflag = s.mask } in
      record s { reg = with_ctrl (λ c. clear_mask c ctrl_halt) s.part r }

  unfoldable pub tmr_disable : SctAdc l k → SctAdc l k
  tmr_disable s = record s { reg = with_ctrl (λ c. set_mask c ctrl_halt) s.part s.reg }

  unfoldable pub tmr_get_frequency : SctAdc l k → ℕ
  tmr_get_frequency s = get_clock s.base / add32 (ctrl_pre_value (s.reg.ctrl s.part)) 1

  unfoldable pub tmr_set_frequency : ℕ → SctAdc l k → SctAdc l k
  tmr_set_frequency frequency s = record s {
    frequency = frequency;
    reg = set_frequency frequency s.base s.part s.reg;
  }

  unfoldable pub tmr_get_overflow : SctAdc l k → ℕ
  tmr_get_overflow s = s.reg.match s.reset s.part + 1

  -- The count stops while `f` writes to the registers.
  abbrev pub stopped : (Regs → Regs) → SctAdc l k → SctAdc l k
  stopped f s = record s {
    reg =
        with_ctrl (λ c. clear_mask c ctrl_stop) s.part
          (f (with_ctrl (λ c. set_mask c ctrl_stop) s.part s.reg));
  }

  unfoldable pub put_overflow : ℕ → SctAdc l k → SctAdc l k
  put_overflow overflow s =
      stopped
        (λ r. record r {
          match =
              at_index r.match s.reset
                (at_part (r.match s.reset) s.part (sub32 overflow 1 % 2 ^ 16));
        })
        s

  -- A failed assertion is `none`.
  unfoldable pub tmr_set_overflow : ℕ → SctAdc l k → Option (SctAdc l k)
  tmr_set_overflow overflow s =
      if ltb overflow (2 ^ 16) then some (put_overflow overflow s) else none

  unfoldable pub tmr_get_value : SctAdc l k → ℕ
  tmr_get_value s = s.reg.count s.part

  unfoldable pub put_value : ℕ → SctAdc l k → SctAdc l k
  put_value value s = stopped (λ r. record r { count = at_part r.count s.part (value % 2 ^ 16) }) s

  unfoldable pub tmr_set_value : ℕ → SctAdc l k → Option (SctAdc l k)
  tmr_set_value value s =
      if leb value (s.reg.match s.reset s.part) then some (put_value value s) else none
