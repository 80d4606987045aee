-- ===== src/Lpc43xx/Clock.antt =====
-- The clocks of examples/lpc43xx_default/shared/board.c.
use halm_examples.Base.{
  ◌&&◌, ltb, ◌==◌, ℕ, ◌+◌, ◌-◌, ◌/◌, ◌%◌, ◌^◌, Bool, true, false, not, Option, none, some, [], ◌∷◌,
  if◌then◌else◌,
}
use halm_examples.Board.{
  source, number, wire, Prog, pure, ◌>>=◌, ◌>>◌, clock_enable, clock_disable, clock_ready,
  clock_frequency, wait_ready, perform, ask, assert, when, pin, main_clock,
}
use halm_examples.Lpc43xx.{
  clock, system_pll, audio_pll, usb_pll, external_osc, divider_e, clock_output, divider_a,
  divider_d, spifi_clock,
}
use halm_examples.Pll.{Difference, above, find_pll_config}

-- The largest frequency of the core is 204 MHz; the external oscillator has 12 MHz.
abbrev pub max_multiplier : ℕ
max_multiplier = 204000000 / 12000000

unfoldable pub enable_periph_clock : (clock : ℕ) → Prog Unit
enable_periph_clock clock = do
  clock_up ← clock_ready clock
  when clock_up (clock_disable clock)
  pll_up ← clock_ready system_pll
  if pll_up then clock_enable clock (source (some system_pll) ∷ []) else do
    osc_up ← clock_ready external_osc
    if osc_up
        then clock_enable clock (source (some external_osc) ∷ [])
        else clock_enable clock (source none ∷ [])
  wait_ready clock

unfoldable pub both_ready : Prog Bool
both_ready = do
  osc_up ← clock_ready external_osc
  if osc_up then clock_ready system_pll else pure false

unfoldable pub start_ext : (spifi_clock_enabled : Bool) → Prog Unit
start_ext spifi_clock_enabled = do
  clock_enable main_clock (source none ∷ [])
  when spifi_clock_enabled (clock_enable spifi_clock (source none ∷ []))
  clock_enable external_osc (number "frequency" 12000000 ∷ [])
  wait_ready external_osc
  clock_enable main_clock (source (some external_osc) ∷ [])
  when spifi_clock_enabled (clock_enable spifi_clock (source (some external_osc) ∷ []))
  system_pll_up ← clock_ready system_pll
  when system_pll_up (clock_disable system_pll)

-- The source asks for SPIFI before it checks the clocks of the settings.
unfoldable pub load_settings : (Bool → Bool → Prog Unit) → Prog Unit
load_settings rest = do
  loaded ← ask "loadClockSettings" pure
  spifi_clock_enabled ← clock_ready spifi_clock
  if loaded
      then (do
        still ← both_ready
        if still
            then rest true spifi_clock_enabled
            else (do perform "memset" []; rest false spifi_clock_enabled))
      else rest false spifi_clock_enabled

unfoldable pub board_setup_clock_ext : Prog Unit
board_setup_clock_ext =
    load_settings λ loaded spifi_clock_enabled. when (not loaded) (start_ext spifi_clock_enabled)

unfoldable pub spifi_from_pll : Prog Unit
spifi_from_pll = do
  rate ← clock_frequency system_pll
  if ltb 30000000 rate
      then (do
        clock_enable divider_d (
            number "divisor" ((rate + 30000000 - 1) % 2 ^ 32 / 30000000)
            ∷ source (some system_pll)
            ∷ [])
        wait_ready divider_d
        clock_enable spifi_clock (source (some divider_d) ∷ []))
      else clock_enable spifi_clock (source (some system_pll) ∷ [])

-- The core comes from the PLL at half of its frequency first when that is high.
unfoldable pub start_pll : (spifi_clock_enabled : Bool) (divisor multiplier : ℕ) → Prog Unit
start_pll spifi_clock_enabled divisor multiplier = do
  clock_enable main_clock (source none ∷ [])
  when spifi_clock_enabled (clock_enable spifi_clock (source none ∷ []))
  clock_enable external_osc (number "frequency" 12000000 ∷ [])
  wait_ready external_osc
  clock_enable system_pll (
      number "divisor" divisor
      ∷ number "multiplier" (if multiplier == 0 then max_multiplier else multiplier)
      ∷ source (some external_osc)
      ∷ [])
  wait_ready system_pll
  if divisor == 1
      then (do
        clock_enable divider_a (number "divisor" 2 ∷ source (some system_pll) ∷ [])
        wait_ready divider_a
        clock_enable main_clock (source (some divider_a) ∷ [])
        perform "udelay" (number "argument" 50 ∷ [])
        clock_enable main_clock (source (some system_pll) ∷ [])
        clock_disable divider_a)
      else clock_enable main_clock (source (some system_pll) ∷ [])

unfoldable pub board_setup_clock_pll_generic : (divisor multiplier : ℕ) → Prog Unit
board_setup_clock_pll_generic divisor multiplier = load_settings λ loaded spifi_clock_enabled. do
  when (not loaded) (start_pll spifi_clock_enabled divisor multiplier)
  when (not loaded && spifi_clock_enabled) spifi_from_pll

unfoldable pub board_setup_clock_pll : Prog Unit
board_setup_clock_pll = board_setup_clock_pll_generic 1 max_multiplier

abbrev pub is_exact : Option Difference → Bool
is_exact (some (above n)) = n == 0
is_exact _ = false

-- The settings for 102 MHz are those that the search leaves where it finds none.
unfoldable pub board_setup_clock_pll_custom :
    (count_leading_zeros : ℕ → ℕ) (frequency : ℕ) → Prog Unit
board_setup_clock_pll_custom count_leading_zeros frequency =
    let (error, divisor, multiplier) =
      find_pll_config count_leading_zeros 12000000 frequency 2 max_multiplier in
    assert (is_exact error) >> board_setup_clock_pll_generic divisor multiplier

unfoldable pub board_reset_clock : Prog Unit
board_reset_clock = do
  clock_enable main_clock (source none ∷ [])
  audio_pll_up ← clock_ready audio_pll
  when audio_pll_up (clock_disable audio_pll)
  usb_pll_up ← clock_ready usb_pll
  when usb_pll_up (clock_disable usb_pll)
  system_pll_up ← clock_ready system_pll
  when system_pll_up (clock_disable system_pll)
  external_osc_up ← clock_ready external_osc
  when external_osc_up (clock_disable external_osc)
  perform "sysFlashLatencyReset" ([])

unfoldable pub board_setup_clock_output : (divisor : ℕ) → Prog Unit
board_setup_clock_output divisor = do
  clock_enable divider_e (number "divisor" divisor ∷ source (some external_osc) ∷ [])
  wait_ready divider_e
  clock_enable clock_output (wire "pin" (pin "PORT_CLK" "2") ∷ source (some divider_e) ∷ [])
  wait_ready clock_output
