-- ===== src/Sct/Sample.antt =====
-- A base class that keeps its tables as functions, for the examples: it shows that the laws asked
-- of the library can be met.
use halm_examples.Base.{
  ℕ, zero, suc, ◌+◌, ◌*◌, ◌/◌, ◌^◌, ◌<◌, ◌≡◌, refl, sym, ap, Bool, true, false, Option, none, some,
  arith, Bool-cases, inl, inr, ◌||◌, if◌then◌else◌, ◌==◌,
}
use halm_examples.Sct.{Regs, Defs, Library, Result, ok, at_part}
use halm_examples.Sct.Laws.{Usage, mark_event, mark_input, mark_output, IsLibrary}

-- The first free index of `n` from `i` on.
unfoldable pub first_free : (ℕ → Bool) → ℕ → ℕ → Option ℕ
first_free f zero i = none
first_free f (suc n) i = if f i then first_free f n (i + 1) else some i

first_free_lem :
    (f : ℕ → Bool) (n i e : ℕ) → first_free f n i ≡ some e → (e < i + n) × (f e ≡ false)
unfolding first_free
first_free_lem f zero i e h = absurd (cc)
first_free_lem f (suc n) i e h = ground (arith, first_free_lem f n (i + 1) e)

abbrev pub granted : Usage → Option ℕ → Option (ℕ × Usage)
granted u none = none
granted u (some e) = some (e, mark_event e true u)

abbrev pub library : Library
library = record {
  Base = Usage;
  init = λ channel part u. (ok, u);
  deinit = λ u. u;
  allocate_event = λ u. granted u (first_free u.event 16 0);
  release_event = λ e u. mark_event e false u;
  reserve_input = λ i u. if u.input i then none else some (mark_input i true u);
  release_input = λ i u. mark_input i false u;
  reserve_output = λ i u. if u.output i then none else some (mark_output i true u);
  release_output = λ i u. mark_output i false u;
  set_frequency = λ f u part r. record r { ctrl = at_part r.ctrl part 0x0160 };
  get_clock = λ u. 204000000;
}

pub granted_lem :
    (u u' : Usage) (o : Option ℕ) (e : ℕ)
    → first_free u.event 16 0 ≡ o
    → granted u o ≡ some (e, u')
    → (e < 16) × (u.event e ≡ false) × (u' ≡ mark_event e true u)
granted_lem u u' none e h g = absurd (cc)
granted_lem u u' (some i) e h g =
    let (lt, free) = first_free_lem u.event 16 0 i h in
    let same : i ≡ e = cc in
    let now : mark_event i true u ≡ u' = cc in (rw same at lt, rw same at free, rw (← now, same))

pub input_lem :
    (u u' : Usage) (i : ℕ)
    → (if u.input i then none else some (mark_input i true u)) ≡ some u'
    → (u.input i ≡ false) × (u' ≡ mark_input i true u)
input_lem u u' i h = elim (Bool-cases (u.input i)) [
  | inl used ↦ absurd (ground arith)
  | inr free ↦ (free, ground arith)
]

pub output_lem :
    (u u' : Usage) (i : ℕ)
    → (if u.output i then none else some (mark_output i true u)) ≡ some u'
    → (u.output i ≡ false) × (u' ≡ mark_output i true u)
output_lem u u' i h = elim (Bool-cases (u.output i)) [
  | inl used ↦ absurd (ground arith)
  | inr free ↦ (free, ground arith)
]

abbrev pub laws : IsLibrary library
laws = record {
  usage = λ u. u;
  init_keeps = λ channel part b b' e. sym (ap (λ (x : Result × Usage). x.1) e);
  deinit_keeps = λ b. refl;
  allocated = λ b b' e h. granted_lem b b' (first_free b.event 16 0) e refl h;
  released = λ b e. refl;
  output_reserved = λ b b' i h. output_lem b b' i h;
  output_released = λ b i. refl;
  input_reserved = λ b b' i h. input_lem b b' i h;
  input_released = λ b i. refl;
}

-- Masks of single bits for the control register, and others of no account.
abbrev pub defs : Defs
defs = record {
  ctrl_halt = 4;
  ctrl_stop = 2;
  ctrl_pre_value = λ c. c / 32;
  config_noreload = λ part. if part then 256 else 128;
  hevent = 16;
  matchsel = λ e. e;
  iosel = λ i. i * 64;
  outsel_in = 0;
  iocond_rise = 1024;
  combmode_match = 4096;
  combmode_io = 8192;
  direction_independent = 0;
  output_setclr_mask = λ i. 3 * 4 ^ i;
  res_output_mask = λ i. 3 * 4 ^ i;
}

abbrev pub blank : Regs
blank = record {
  config = 0;
  ctrl = λ p. 4;
  limit = λ p. 0;
  state = λ p. 0;
  count = λ p. 0;
  regmode = λ p. 0;
  match = λ e p. 100;
  cap = λ e p. 0;
  capctrl = λ e p. 0;
  ev_ctrl = λ e. 0;
  ev_state = λ e. 0;
  out_set = λ i. 0;
  out_clr = λ i. 0;
  outputdirctrl = 0;
  res = 0;
  dmareq0 = 0;
  dmareq1 = 0;
  even = 0;
  evflag = 0;
}

-- Events 0 and 2, input 6 and output 3 are taken by another timer.
abbrev pub tables : Usage
tables = record { event = λ e. (e == 0) || (e == 2); input = λ i. i == 6; output = λ i. i == 3 }
