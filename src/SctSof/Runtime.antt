-- ===== src/SctSof/Runtime.antt =====
-- The operations of sct_sof.c on a timer that has been set up.
use halm_examples.Base.{
  ℕ, ◌-◌, ◌/◌, ◌^◌, Bool, false, Option, none, some, leb, if◌then◌else◌, add32,
}
use halm_examples.Base.Bits.{set_mask, clear_mask}
use halm_examples.Sct.{Regs, Defs, Library, at_part, at_index}
use halm_examples.SctSof.{SctSof, event_flags}

module _ (l : Library) (k : Defs) (gima_value : ℕ → ℕ) where
  open l use {deinit, release_event, release_input, set_frequency, get_clock}
  open k use {ctrl_halt, ctrl_stop, ctrl_pre_value, config_noreload}

  abbrev pub Timer : Type 0
  Timer = SctSof l k gima_value

  -- A write to the control half of the timer's part.
  abbrev pub with_ctrl : (ℕ → ℕ) → Bool → Regs → Regs
  with_ctrl f part r = record r { ctrl = at_part r.ctrl part (f (r.ctrl part)) }

  unfoldable pub drop_event : ℕ → Timer → Timer
  drop_event e s = record s {
    reg = record (s.reg) {
      ev_ctrl = at_index s.reg.ev_ctrl e 0;
      ev_state = at_index s.reg.ev_state e 0;
    };
    base = release_event e s.base;
  }

  -- The timer is halted and masked, and no longer captures.
  unfoldable pub halt : Timer → Timer
  halt s =
      let r = s.reg in
      let masked = clear_mask (clear_mask r.even s.mask) (event_flags l k gima_value s) in
      let capctrl = at_index r.capctrl s.i2s_event (at_part (r.capctrl s.i2s_event) s.part 0) in
      record s {
        reg = record r {
          ctrl = at_part r.ctrl s.part ctrl_halt;
          even = masked;
          limit = at_part r.limit s.part 0;
          capctrl = at_index capctrl s.usb_event (at_part (capctrl s.usb_event) s.part 0);
        };
      }

  unfoldable pub tmr_deinit : Timer → Timer
  tmr_deinit s =
      let s₁ = drop_event s.i2s_event (drop_event s.usb_event (halt s)) in
      record s₁ {
        reg = record (s₁.reg) { config = clear_mask s₁.reg.config (config_noreload s.part) };
        base = deinit (release_input s.i2s_input (release_input s.usb_input s₁.base));
      }

  unfoldable pub tmr_enable : Timer → Timer
  tmr_enable s = record s {
    mws_duration = 0;
    sof_duration = 0;
    mws_valid = false;
    sof_valid = false;
    reg = with_ctrl (λ c. clear_mask c ctrl_halt) s.part (record (s.reg) { evflag = s.mask });
  }

  unfoldable pub tmr_disable : Timer → Timer
  tmr_disable s = record s { reg = with_ctrl (λ c. set_mask c ctrl_halt) s.part s.reg }

  unfoldable pub tmr_get_frequency : Timer → ℕ
  tmr_get_frequency s = get_clock s.base / add32 (ctrl_pre_value (s.reg.ctrl s.part)) 1

  unfoldable pub tmr_set_frequency : ℕ → Timer → Timer
  tmr_set_frequency frequency s = record s {
    frequency = frequency;
    reg = set_frequency frequency s.base s.part s.reg;
  }

  unfoldable pub tmr_get_value : Timer → ℕ
  tmr_get_value s = s.reg.count s.part

  -- A failed assertion is `none`.
  unfoldable pub tmr_set_value : ℕ → Timer → Option Timer
  tmr_set_value value s =
      if leb value (2 ^ 16 - 1)
      then some (record s {
        reg =
            let r = with_ctrl (λ c. set_mask c ctrl_stop) s.part s.reg in
            with_ctrl (λ c. clear_mask c ctrl_stop) s.part
              (record r { count = at_part r.count s.part value });
      })
      else none

  unfoldable pub sct_sof_set_sample_rate : ℕ → Timer → Timer
  sct_sof_set_sample_rate rate s = record s { rate = rate }
