-- ===== src/SctSof/Tests.antt =====
-- The measurements of sct_sof.c at concrete inputs.
use halm_examples.Base.{
  ℕ, ◌+◌, ◌*◌, ◌/◌, ◌^◌, ◌<◌, ◌≡◌, refl, true, false, none, some, List, [], ◌∷◌, arith,
}
use halm_examples.Base.Bits.{bit}
use halm_examples.Sct.{at_part, at_index}
use halm_examples.Sct.Sample.{library, defs, blank, tables}
use halm_examples.SctSof.{SctSof, capture_mws, capture_sof, interrupt_handler}
use halm_examples.SctSof.Runtime.{tmr_enable}
use halm_examples.SctSof.Capture.{Edges, serve, latch}
use halm_examples.SctSof.Ratio.{
  IsRatio, sct_sof_get_ratio, checked_ratio, ratio_of, scale, mws_expected, sof_expected,
  sct_sof_get_ratio_lem,
}

abbrev gima : ℕ → ℕ
gima n = n * 16 + 2

abbrev idle : SctSof library defs gima
idle = record {
  base = tables;
  part = true;
  mask = 2 ^ 1 + 2 ^ 3;
  frequency = 10000000;
  rate = 48000;
  mws_duration = 7;
  mws_previous = 0;
  sof_duration = 0;
  sof_previous = 0;
  i2s_input = 4;
  usb_input = 7;
  i2s_event = 1;
  usb_event = 3;
  mws_valid = true;
  sof_valid = false;
  reg = blank;
  gima = λ i. 0;
}

-- The clock of the samples has edges 26667 ticks apart and the frames are 10000 ticks long; the
-- counter wraps before the third edge, which comes with a frame.
abbrev edges : List Edges
edges =
    record { mws = none; sof = some 500 }
    ∷ record { mws = some 40000; sof = none }
    ∷ record { mws = none; sof = some 56000 }
    ∷ record { mws = some 66667; sof = some 66000 }
    ∷ []

abbrev served : SctSof library defs gima
served = serve library defs gima edges (tmr_enable library defs gima idle)

durations : (served.mws_duration ≡ 26667) × (served.sof_duration ≡ 10000)
unfolding serve tmr_enable interrupt_handler latch capture_mws capture_sof at_index at_part bit
durations = (refl, refl)

abbrev measured : SctSof library defs gima
measured = record idle { mws_duration = 26667; sof_duration = 10000 }

ratio_test : sct_sof_get_ratio library defs gima measured ≡ some 65535
unfolding sct_sof_get_ratio checked_ratio ratio_of scale mws_expected sof_expected
ratio_test = refl

within : 26667 * sof_expected 10000000 10000 < 10000 * 2 ^ 24
unfolding sof_expected
within = omega arith

sct_sof_get_ratio_lem_example :
    (r : ℕ) × (sct_sof_get_ratio library defs gima measured ≡ some r)
    × IsRatio (sof_expected 10000000 10000) 26667 10000 ((10000000 * 2 ^ 7 + 48000 / 2) / 48000) r
sct_sof_get_ratio_lem_example = sct_sof_get_ratio_lem library defs gima measured (record {
  asserted = record { below = omega arith; whole = refl };
  rate_pos = omega arith;
  rate_le = omega arith;
  rate_slow = omega arith;
  mws_pos = omega arith;
  mws_lt = omega arith;
  sof_pos = omega arith;
  quotient_lt = within;
})
