-- ===== src/Sct.antt =====
-- The state configurable timer of the LPC43xx as its two drivers see it,
-- examples/lpc43xx_default/shared/sct_adc.c and sct_sof.c: the registers that they write, the bit
-- masks and the base class that come with the HALM library, and the run of a constructor.
pub mod Laws
pub mod Steps
pub mod Writes
pub mod Sample
use halm_examples.Base.{ℕ, Bool, true, false, Option, ◌==◌, if◌then◌else◌}

-- `LPC_SCT_Type`: the registers hold what was written last. A register with a half for each part
-- of the timer is a function of the part, where `true` is SCT_HIGH.
pub record Regs : Type 0 where
  pub config : ℕ
  pub ctrl : Bool → ℕ
  pub limit : Bool → ℕ
  pub state : Bool → ℕ
  pub count : Bool → ℕ
  pub regmode : Bool → ℕ
  pub match : ℕ → Bool → ℕ
  pub cap : ℕ → Bool → ℕ
  pub capctrl : ℕ → Bool → ℕ
  pub ev_ctrl : ℕ → ℕ
  pub ev_state : ℕ → ℕ
  pub out_set : ℕ → ℕ
  pub out_clr : ℕ → ℕ
  pub outputdirctrl : ℕ
  pub res : ℕ
  pub dmareq0 : ℕ
  pub dmareq1 : ℕ
  pub even : ℕ
  pub evflag : ℕ

-- A write to one half, or to one of a family of registers.
unfoldable pub at_part : (Bool → ℕ) → Bool → ℕ → Bool → ℕ
at_part f true v true = v
at_part f false v false = v
at_part f p v q = f q

unfoldable pub at_index {ℓ} : {A : Type ℓ} → (ℕ → A) → ℕ → A → ℕ → A
at_index f i v j = if i == j then v else f j

-- The masks of `halm/platform/lpc/sct_defs.h`.
pub record Defs : Type 0 where
  pub ctrl_halt : ℕ
  pub ctrl_stop : ℕ
  pub ctrl_pre_value : ℕ → ℕ
  pub config_noreload : Bool → ℕ
  pub hevent : ℕ
  pub matchsel : ℕ → ℕ
  pub iosel : ℕ → ℕ
  pub outsel_in : ℕ
  pub iocond_rise : ℕ
  pub combmode_match : ℕ
  pub combmode_io : ℕ
  pub direction_independent : ℕ
  pub output_setclr_mask : ℕ → ℕ
  pub res_output_mask : ℕ → ℕ

-- The codes of `enum Result` that the constructors return; `fault` stands for those of the base
-- class.
pub data Result : Type 0 where
  ok busy : Result
  fault : ℕ → Result

-- `SctBase` and its functions. A base object is taken together with the tables of the library in
-- which both parts of a timer note what they use. A request that cannot be met gives `none` and
-- changes nothing.
pub record Library : Type 1 where
  pub Base : Type 0
  pub init : (channel : ℕ) (part : Bool) → Base → Result × Base
  pub deinit : Base → Base
  pub allocate_event : Base → Option (ℕ × Base)
  pub release_event : ℕ → Base → Base
  pub reserve_input : ℕ → Base → Option Base
  pub release_input : ℕ → Base → Base
  pub reserve_output : ℕ → Base → Option Base
  pub release_output : ℕ → Base → Base
  pub set_frequency : ℕ → Base → Bool → Regs → Regs
  pub get_clock : Base → ℕ
