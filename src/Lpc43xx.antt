-- ===== src/Lpc43xx.antt =====
-- The board of examples/lpc43xx_default/shared/board.c: the clocks that it names. The functions are
-- in the modules below, by what they set up.
pub mod Clock
pub mod Analog
pub mod Serial
pub mod Bus
pub mod Memory
pub mod Timing
pub mod System
pub mod Sdram
pub mod Internal
mod Tests
pub mod Programs
pub mod Safe
use halm_examples.Base.{ℕ}

-- The clock classes of the library that the file names, but for that of the core.
abbrev pub clock : ℕ
clock = 1

abbrev pub system_pll : ℕ
system_pll = 2

abbrev pub audio_pll : ℕ
audio_pll = 3

abbrev pub usb_pll : ℕ
usb_pll = 4

abbrev pub external_osc : ℕ
external_osc = 5

abbrev pub divider_e : ℕ
divider_e = 6

abbrev pub clock_output : ℕ
clock_output = 7

abbrev pub apb3_clock : ℕ
apb3_clock = 8

abbrev pub divider_a : ℕ
divider_a = 9

abbrev pub phy_rx_clock : ℕ
phy_rx_clock = 10

abbrev pub phy_tx_clock : ℕ
phy_tx_clock = 11

abbrev pub apb1_clock : ℕ
apb1_clock = 12

abbrev pub rtc_osc : ℕ
rtc_osc = 13

abbrev pub divider_c : ℕ
divider_c = 14

abbrev pub sdio_clock : ℕ
sdio_clock = 15

abbrev pub usart0_clock : ℕ
usart0_clock = 16

abbrev pub uart1_clock : ℕ
uart1_clock = 17

abbrev pub usart2_clock : ℕ
usart2_clock = 18

abbrev pub ssp0_clock : ℕ
ssp0_clock = 19

abbrev pub ssp1_clock : ℕ
ssp1_clock = 20

abbrev pub usb0_clock : ℕ
usb0_clock = 21

abbrev pub usb1_clock : ℕ
usb1_clock = 22

abbrev pub divider_d : ℕ
divider_d = 23

abbrev pub spifi_clock : ℕ
spifi_clock = 24
