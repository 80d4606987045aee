-- ===== src/SctSof.antt =====
-- The timer that measures the I2S and USB frame clocks against each other:
-- examples/lpc43xx_default/shared/sct_sof.c and sct_sof.h.
pub mod Runtime
pub mod Capture
pub mod Ratio
mod Tests
use Prim.Native.Nat.{bit_or}
use halm_examples.Base.{
  ℕ, ◌+◌, ◌-◌, ◌*◌, ◌/◌, ◌%◌, ◌^◌, Bool, true, false, ◌&&◌, ◌||◌, not, Option, none, some, ◌==◌,
  leb, ltb, if◌then◌else◌, add32, sub32,
}
use halm_examples.Base.Bits.{bit, flag, set_mask, clear_mask}
use halm_examples.Sct.{Regs, Defs, Library, Result, ok, busy, fault, at_part, at_index}
use halm_examples.Sct.Steps.{Run, running, failed, Steps, ◌>>◌, modify}

-- `enum SctSofInput`
pub data Input : Type 0 where
  i2s0_rx_mws_6 i2s0_tx_mws_6 i2s1_rx_mws_3 i2s1_tx_mws_3 : Input
  i2s1_rx_mws_4 i2s1_tx_mws_4 usb0_sof_7 usb1_sof_7 : Input

-- `struct SctSofConfig`; the part is SCT_HIGH or SCT_LOW, as asserted.
pub record Config : Type 0 where
  pub frequency : ℕ
  pub i2s : Input
  pub usb : Input
  pub part : Bool
  pub channel : ℕ

-- The index `SCT_INPUT_n - 1` of an input channel.
unfoldable pub input_to_input_channel : Input → ℕ
input_to_input_channel i2s0_rx_mws_6 = 6
input_to_input_channel i2s0_tx_mws_6 = 6
input_to_input_channel i2s1_rx_mws_3 = 3
input_to_input_channel i2s1_tx_mws_3 = 3
input_to_input_channel i2s1_rx_mws_4 = 4
input_to_input_channel i2s1_tx_mws_4 = 4
input_to_input_channel usb0_sof_7 = 7
input_to_input_channel usb1_sof_7 = 7

-- The tables of `routeGimaInput`.
abbrev pub channel_mux : Input → ℕ
channel_mux i2s0_rx_mws_6 = 6
channel_mux i2s0_tx_mws_6 = 6
channel_mux i2s1_rx_mws_3 = 3
channel_mux i2s1_tx_mws_3 = 3
channel_mux i2s1_rx_mws_4 = 4
channel_mux i2s1_tx_mws_4 = 4
channel_mux usb0_sof_7 = 7
channel_mux usb1_sof_7 = 7

abbrev pub function_mux : Input → ℕ
function_mux i2s0_rx_mws_6 = 2
function_mux i2s0_tx_mws_6 = 3
function_mux i2s1_rx_mws_3 = 2
function_mux i2s1_tx_mws_3 = 3
function_mux i2s1_rx_mws_4 = 2
function_mux i2s1_tx_mws_4 = 3
function_mux usb0_sof_7 = 2
function_mux usb1_sof_7 = 3

module _ (l : Library) (k : Defs) (gima_value : ℕ → ℕ) where
  open l use {
    Base, init, deinit, allocate_event, release_event, reserve_input, release_input, set_frequency,
    get_clock,
  }
  open k use {
    ctrl_halt, ctrl_stop, ctrl_pre_value, config_noreload, hevent, iosel, outsel_in, iocond_rise,
    combmode_io, direction_independent,
  }

  -- `struct SctSof`, with the registers that `base.reg` points to, and those of the GIMA.
  pub record SctSof : Type 0 where
    pub base : Base
    pub part : Bool
    pub mask : ℕ
    pub frequency : ℕ
    pub rate : ℕ
    pub mws_duration : ℕ
    pub mws_previous : ℕ
    pub sof_duration : ℕ
    pub sof_previous : ℕ
    pub i2s_input : ℕ
    pub usb_input : ℕ
    pub i2s_event : ℕ
    pub usb_event : ℕ
    pub mws_valid : Bool
    pub sof_valid : Bool
    pub reg : Regs
    pub gima : ℕ → ℕ

  abbrev pub event_flags : SctSof → ℕ
  event_flags s = bit_or (flag s.i2s_event) (flag s.usb_event)

  -- The two halves of `interruptHandler`, run when the flag of their event is set. A difference of
  -- two captures is cut to the 16 bits of its field.
  unfoldable pub capture_mws : SctSof → SctSof
  capture_mws s =
      let value = s.reg.cap s.i2s_event s.part in
      record s {
        mws_duration =
            if s.mws_valid then (value + 2 ^ 16 - s.mws_previous) % 2 ^ 16 else s.mws_duration;
        mws_previous = value;
        mws_valid = true;
      }

  unfoldable pub capture_sof : SctSof → SctSof
  capture_sof s =
      let value = s.reg.cap s.usb_event s.part in
      record s {
        sof_duration =
            if s.sof_valid then (value + 2 ^ 16 - s.sof_previous) % 2 ^ 16 else s.sof_duration;
        sof_previous = value;
        sof_valid = true;
      }

  unfoldable pub interrupt_handler : SctSof → SctSof
  interrupt_handler s =
      let evflag = s.reg.evflag in
      let s₁ = record s { reg = record (s.reg) { evflag = event_flags s } } in
      let s₂ = if bit evflag s.i2s_event == 1 then capture_mws s₁ else s₁ in
      if bit evflag s.usb_event == 1 then capture_sof s₂ else s₂

  unfoldable pub route_gima_input : Input → SctSof → SctSof
  route_gima_input input s = record s {
    gima = at_index s.gima (channel_mux input) (gima_value (function_mux input));
  }

  init_base : Config → Steps SctSof
  init_base config s =
      let (r, b) = init config.channel config.part s.base in
      elim r [
        | ok ↦ running (record s { base = b; part = config.part })
        | busy ↦ failed busy (record s { base = b })
        | fault n ↦ failed (fault n) (record s { base = b })
      ]

  allocate : (ℕ → SctSof → SctSof) → Steps SctSof
  allocate keep s = elim (allocate_event s.base) [
    | none ↦ failed busy s
    | some (e, b) ↦ running (keep e (record s { base = b }))
  ]

  reserve : ℕ → Steps SctSof
  reserve i s = elim (reserve_input i s.base) [
    | none ↦ failed busy s
    | some b ↦ running (record s { base = b })
  ]

  -- The start values of the object.
  setup_fields : Config → SctSof → SctSof
  setup_fields config s = record s {
    mask = event_flags s;
    rate = 0;
    mws_duration = 0;
    mws_previous = 0;
    sof_duration = 0;
    sof_previous = 0;
    i2s_input = input_to_input_channel config.i2s;
    usb_input = input_to_input_channel config.usb;
    mws_valid = false;
    sof_valid = false;
  }

  -- A capture on the rising edge of an input.
  configure_event : Bool → (event input : ℕ) → Regs → Regs
  configure_event part e input r = record r {
    ev_ctrl = at_index r.ev_ctrl e (
        bit_or (if part then hevent else 0) (
          bit_or outsel_in (
            bit_or (iosel input) (bit_or iocond_rise (bit_or combmode_io direction_independent)))));
    ev_state = at_index r.ev_state e 1;
    regmode = at_part r.regmode part (set_mask (r.regmode part) (flag e));
    capctrl = at_index r.capctrl e (at_part (r.capctrl e) part (flag e));
  }

  -- All that follows the routing of the inputs; the priority of the interrupt is set by a call of
  -- the library that leaves the timer alone.
  setup_timer : Config → SctSof → SctSof
  setup_timer config s =
      let part = s.part in
      let halted = record (s.reg) { ctrl = at_part s.reg.ctrl part ctrl_halt } in
      let paced = set_frequency config.frequency s.base part halted in
      let single = record paced { config = set_mask paced.config (config_noreload part) } in
      let r =
        configure_event part s.usb_event s.usb_input
          (configure_event part s.i2s_event s.i2s_input single) in
      record s {
        frequency = config.frequency;
        reg = record r {
          evflag = event_flags s;
          even = set_mask r.even (event_flags s);
          state = at_part r.state part 0;
        };
      }

  pub tmr_init : Config → Steps SctSof
  tmr_init config = do
    init_base config
    allocate (λ e s. record s { i2s_event = e })
    allocate (λ e s. record s { usb_event = e })
    modify (setup_fields config)
    λ s. reserve s.i2s_input s
    λ s. reserve s.usb_input s
    modify (route_gima_input config.i2s)
    modify (route_gima_input config.usb)
    modify (setup_timer config)
