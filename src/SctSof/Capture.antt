-- ===== src/SctSof/Capture.antt =====
-- The interrupt handler of sct_sof.c against the frame clocks that it measures.
use Prim.Native.Nat.{bit_or}
use halm_examples.Base.{
  ℕ, ◌+◌, ◌-◌, ◌%◌, ◌^◌, ◌≤◌, ◌<◌, ◌≡◌, ◌≢◌, refl, Bool, true, false, Option, none, some, List, [],
  ◌∷◌, ◌==◌, if◌then◌else◌,
}
use halm_examples.Base.Bits.{bit, flag, bit-flag_self, bit-zero}
use halm_examples.Sct.{Defs, Library, at_index, at_part}
use halm_examples.SctSof.{SctSof, interrupt_handler}

-- What the frame clocks do before one interrupt: the time of an edge of either, in ticks of the
-- timer since it was started, without any wrap.
pub record Edges : Type 0 where
  pub mws : Option ℕ
  pub sof : Option ℕ

-- A clock as the measurement should see it: its last edge, and the distance of the last two.
pub record Clock : Type 0 where
  pub last : Option ℕ
  pub period : ℕ

abbrev pub distance : Option ℕ → ℕ → ℕ → ℕ
distance none t period = period
distance (some t₀) t period = t - t₀

unfoldable pub observe : Clock → Option ℕ → Clock
observe c none = c
observe c (some t) = record { last = some t; period = distance c.last t c.period }

-- The edge comes less than one round of the 16-bit counter after the one before.
abbrev pub Follows : Option ℕ → ℕ → Type 0
Follows none t = Unit
Follows (some t₀) t = (t₀ ≤ t) × (t < t₀ + 2 ^ 16)

abbrev pub IsClose : Clock → Option ℕ → Type 0
IsClose c none = Unit
IsClose c (some t) = Follows c.last t

abbrev pub Remembers : Option ℕ → Bool → ℕ → Type 0
Remembers none valid previous = valid ≡ false
Remembers (some t) valid previous = (valid ≡ true) × (previous ≡ t % 2 ^ 16)

-- The three fields that the handler keeps of a clock agree with the clock.
abbrev pub Tracks : Clock → ℕ → Bool → ℕ → Type 0
Tracks c duration valid previous = (duration ≡ c.period) × Remembers c.last valid previous

-- The three fields after a handler that found the flag of the edge raised, or not.
abbrev next_duration : Option ℕ → ℕ → Bool → ℕ → ℕ
next_duration none duration valid previous = duration
next_duration (some t) duration valid previous =
    if valid then (t % 2 ^ 16 + 2 ^ 16 - previous) % 2 ^ 16 else duration

abbrev next_valid : Option ℕ → Bool → Bool
next_valid none valid = valid
next_valid (some t) valid = true

abbrev next_previous : Option ℕ → ℕ → ℕ
next_previous none previous = previous
next_previous (some t) previous = t % 2 ^ 16

abbrev raised : Option ℕ → ℕ → ℕ
raised none e = 0
raised (some t) e = flag e

-- What the handler is to find of an edge: the test of the flag, and the count latched.
abbrev Finds : Option ℕ → Bool → ℕ → Type 0
Finds none test value = test ≡ false
Finds (some t) test value = (test ≡ true) × (value ≡ t % 2 ^ 16)

raised_self : (a : Option ℕ) (e : ℕ) → Finds a (bit (raised a e) e == 1) (next_previous a 0)
raised_self none e = rw (bit-zero e) refl
raised_self (some t) e = (rw (bit-flag_self e) refl, refl)

-- The clock after a list of edges.
unfoldable pub watch : (Edges → Option ℕ) → List Edges → Clock → Clock
watch side [] c = c
watch side (g ∷ gs) c = watch side gs (observe c (side g))

abbrev pub AllClose : (Edges → Option ℕ) → List Edges → Clock → Type 0
AllClose side [] c = Unit
AllClose side (g ∷ gs) c = IsClose c (side g) × AllClose side gs (observe c (side g))

-- A clock of which no edge has been seen.
abbrev pub unseen : Clock
unseen = record { last = none; period = 0 }

module _ (l : Library) (k : Defs) (gima_value : ℕ → ℕ) where
  abbrev Timer : Type 0
  Timer = SctSof l k gima_value

  abbrev latched : Option ℕ → ℕ → Bool → (ℕ → Bool → ℕ) → ℕ → Bool → ℕ
  latched none e p f = f
  latched (some t) e p f = at_index f e (at_part (f e) p (t % 2 ^ 16))

  -- The capture unit latches the 16-bit count at each edge, and raises the flag of the event.
  unfoldable pub latch : Edges → Timer → Timer
  latch g s = record s {
    reg = record (s.reg) {
      evflag = bit_or (raised g.mws s.i2s_event) (raised g.sof s.usb_event);
      cap = latched g.sof s.usb_event s.part (latched g.mws s.i2s_event s.part s.reg.cap);
    };
  }

  unfoldable pub serve : List Edges → Timer → Timer
  serve [] s = s
  serve (g ∷ gs) s = serve gs (interrupt_handler l k gima_value (latch g s))

  -- The two measurements of the timer are those of the two clocks.
  pub record Measures (i2s usb : Clock) (s : Timer) : Type 0 where
    pub apart : s.i2s_event ≢ s.usb_event
    pub mws : Tracks i2s s.mws_duration s.mws_valid s.mws_previous
    pub sof : Tracks usb s.sof_duration s.sof_valid s.sof_previous

  -- What the handler makes of the six fields.
  record Handled (m o : Option ℕ) (s s' : Timer) : Type 0 where
    events : (s'.i2s_event ≡ s.i2s_event) × (s'.usb_event ≡ s.usb_event)
    mws_d : s'.mws_duration ≡ next_duration m s.mws_duration s.mws_valid s.mws_previous
    mws_v : s'.mws_valid ≡ next_valid m s.mws_valid
    mws_p : s'.mws_previous ≡ next_previous m s.mws_previous
    sof_d : s'.sof_duration ≡ next_duration o s.sof_duration s.sof_valid s.sof_previous
    sof_v : s'.sof_valid ≡ next_valid o s.sof_valid
    sof_p : s'.sof_previous ≡ next_previous o s.sof_previous
