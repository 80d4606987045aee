-- ===== src/SctAdc.antt =====
-- The timer that paces the ADC and its memory transfers:
-- examples/lpc43xx_default/shared/sct_adc.c and sct_adc.h.
pub mod Runtime
pub mod Usage
pub mod Release
pub mod Control
mod Tests
use Prim.Native.Nat.{bit_or}
use halm_examples.Base.{
  ℕ, ◌+◌, ◌-◌, ◌/◌, ◌%◌, ◌^◌, Bool, true, false, Option, none, some, ◌==◌, leb, ltb, if◌then◌else◌,
  add32, sub32,
}
use halm_examples.Base.Bits.{flag, set_mask, clear_mask}
use halm_examples.Sct.{Regs, Defs, Library, Result, ok, busy, fault, at_part, at_index}
use halm_examples.Sct.Steps.{Run, running, failed, Steps, ◌>>◌, modify}

-- `enum SctAdcOutput` and `enum SctAdcDmaOutput`. The assertions of `tmrInit` rule out all other
-- values.
pub data AdcOutput : Type 0 where
  adc_output_8 adc_output_15 : AdcOutput

pub data DmaOutput : Type 0 where
  dma_0 dma_1 dma_output_2 dma_output_3 : DmaOutput

-- `struct SctAdcConfig`; the part is SCT_HIGH or SCT_LOW, as asserted.
pub record Config : Type 0 where
  pub cycle : ℕ
  pub delay : ℕ
  pub frequency : ℕ
  pub adc : AdcOutput
  pub dma : DmaOutput
  pub part : Bool
  pub channel : ℕ

-- An output is SCT_OUTPUT_NONE, or the index `SCT_OUTPUT_n - 1` of its registers.
abbrev pub adc_channel : AdcOutput → Option ℕ
adc_channel adc_output_8 = some 8
adc_channel adc_output_15 = some 15

abbrev pub dma_channel : DmaOutput → Option ℕ
dma_channel dma_0 = none
dma_channel dma_1 = none
dma_channel dma_output_2 = some 2
dma_channel dma_output_3 = some 3

module _ (l : Library) (k : Defs) where
  open l use {
    Base, init, deinit, allocate_event, release_event, reserve_output, release_output,
    set_frequency, get_clock,
  }
  open k use {
    ctrl_halt, ctrl_stop, ctrl_pre_value, config_noreload, hevent, matchsel, combmode_match,
    direction_independent, output_setclr_mask, res_output_mask,
  }

  -- `struct SctAdc`, with the registers that `base.reg` points to.
  pub record SctAdc : Type 0 where
    pub base : Base
    pub part : Bool
    pub mask : ℕ
    pub frequency : ℕ
    pub adc : AdcOutput
    pub dma : DmaOutput
    pub adc_output : Option ℕ
    pub dma_output : Option ℕ
    pub conversion : ℕ
    pub memory : ℕ
    pub reset : ℕ
    pub reg : Regs

  -- `SctBase->init`, which takes the part over from the configuration.
  unfoldable pub init_base : Config → Steps SctAdc
  init_base config s =
      let (r, b) = init config.channel config.part s.base in
      elim r [
        | ok ↦ running (record s { base = b; part = config.part })
        | busy ↦ failed busy (record s { base = b })
        | fault n ↦ failed (fault n) (record s { base = b })
      ]

  -- `if (!sctAllocateEvent(&timer->base, &timer->…)) return E_BUSY;`
  unfoldable pub allocate : (ℕ → SctAdc → SctAdc) → Steps SctAdc
  allocate keep s = elim (allocate_event s.base) [
    | none ↦ failed busy s
    | some (e, b) ↦ running (keep e (record s { base = b }))
  ]

  -- `if (output != SCT_OUTPUT_NONE) { if (!sctReserveOutputChannel(…)) return E_BUSY; … }`
  unfoldable pub reserve : Option ℕ → (ℕ → Regs → Regs) → Steps SctAdc
  reserve none configure s = running s
  reserve (some i) configure s = elim (reserve_output i s.base) [
    | none ↦ failed busy s
    | some b ↦ running (record s { base = b; reg = configure i s.reg })
  ]

  -- The event control word of the three events.
  abbrev pub event_control : Bool → ℕ → ℕ
  event_control part e =
      bit_or (if part then hevent else 0)
        (bit_or (matchsel e) (bit_or combmode_match direction_independent))

  -- Match value, control, state and register mode of an event.
  unfoldable pub configure_event : Bool → ℕ → ℕ → Regs → Regs
  configure_event part e value r = record r {
    match = at_index r.match e (at_part (r.match e) part (value % 2 ^ 16));
    ev_ctrl = at_index r.ev_ctrl e (event_control part e);
    ev_state = at_index r.ev_state e 1;
    regmode = at_part r.regmode part (clear_mask (r.regmode part) (flag e));
  }

  -- The output is set by one event and cleared by another.
  unfoldable pub configure_output : (set clear : ℕ) → ℕ → Regs → Regs
  configure_output set clear i r = record r {
    outputdirctrl = clear_mask r.outputdirctrl (output_setclr_mask i);
    res = clear_mask r.res (res_output_mask i);
    out_clr = at_index r.out_clr i (flag clear);
    out_set = at_index r.out_set i (flag set);
  }

  unfoldable pub request_dma : DmaOutput → ℕ → Regs → Regs
  request_dma dma_0 e r = record r { dmareq0 = set_mask r.dmareq0 (flag e) }
  request_dma dma_1 e r = record r { dmareq1 = set_mask r.dmareq1 (flag e) }
  request_dma _ e r = r

  -- From the mask of the events to the configuration of the conversion event.
  unfoldable pub setup_timer : Config → SctAdc → SctAdc
  setup_timer config s =
      let part = s.part in
      let halted = record (s.reg) { ctrl = at_part s.reg.ctrl part ctrl_halt } in
      let paced = set_frequency config.frequency s.base part halted in
      let single = record paced { config = set_mask paced.config (config_noreload part) } in
      record s {
        mask = bit_or (flag s.conversion) (bit_or (flag s.memory) (flag s.reset));
        frequency = config.frequency;
        adc = config.adc;
        adc_output = adc_channel config.adc;
        reg = configure_event part s.conversion 1 single;
      }

  -- The configuration of the memory transfer event and of the DMA request.
  unfoldable pub setup_memory : Config → SctAdc → SctAdc
  setup_memory config s = record s {
    dma = config.dma;
    dma_output = dma_channel config.dma;
    reg =
        request_dma config.dma s.memory
          (configure_event s.part s.memory (add32 1 config.delay) s.reg);
  }

  -- The configuration of the reset event, and the start values.
  unfoldable pub setup_reset : Config → SctAdc → SctAdc
  setup_reset config s =
      let r = configure_event s.part s.reset config.cycle s.reg in
      record s {
        reg = record r {
          state = at_part r.state s.part 0;
          limit = at_part r.limit s.part (flag s.reset);
        };
      }

  -- The events are allocated first.
  unfoldable pub acquire_events : Config → Steps SctAdc
  acquire_events config = do
    init_base config
    allocate (λ e s. record s { conversion = e })
    allocate (λ e s. record s { memory = e })
    allocate (λ e s. record s { reset = e })

  unfoldable pub tmr_init : Config → Steps SctAdc
  tmr_init config = do
    acquire_events config
    modify (setup_timer config)
    λ s. reserve s.adc_output (configure_output s.conversion s.memory) s
    modify (setup_memory config)
    λ s. reserve s.dma_output (configure_output s.memory s.reset) s
    modify (setup_reset config)
