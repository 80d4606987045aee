-- ===== src/Lib.antt =====
-- Models of the programs of this repository, the examples of the HALM library, and proofs about
-- them. All paths are relative to the repository's root. The examples consist of drivers that are
-- shared by the programs of a platform (examples/<platform>/shared) and of one small program per
-- directory; they call the HALM and xcore libraries, which are not part of the repository, and are
-- therefore parameters here, with what is relied on in a record of hypotheses.
--
-- Base holds what the other modules share: the names of the standard library, the arithmetic of
-- 32-bit words, and the bits of a register under `|=` and `&= ~`.
--
-- Flash models examples/lpc43xx_default/shared/flash_cfi.c, the driver of a NOR flash. Its
-- functions keep their names (interfaceRead is interface_read, and so on). The chip behind the
-- mapped memory and the delays are the record Bus; Flash.Chip states what the command sequences of
-- the data sheet do (IsCfi), and Flash.Sample is a chip that meets it. A call that cannot finish
-- (a failed assertion, an access outside the memory, a chip that never gets ready) gives `none`.
--
-- EmcFlash models examples/lpc43xx_default/emc_flash/main.c, the program that erases, fills and
-- verifies such a flash through the driver. Pins, clocks and the memory controller, which main
-- sets up before, are left out.
--
-- Sct holds what the two drivers of the state configurable timer share: its registers, which hold
-- what was written last, and as parameters the masks of the HALM header (Defs) and the base class
-- (Library, with the hypotheses IsLibrary). Sct.Steps is the run of a constructor, which ends at
-- the first request that is refused. SctAdc models examples/lpc43xx_default/shared/sct_adc.c and
-- SctSof models examples/lpc43xx_default/shared/sct_sof.c; the operations of a timer that has been
-- set up are in the modules Runtime. SctSof.Capture compares the interrupt handler with the clocks
-- that it measures, SctSof.Ratio has sctSofGetRatio.
--
-- Pll models findPllConfig of examples/lpc43xx_default/shared/board.c, the search for the factors
-- of the system PLL; the count of leading zeros, which comes with xcore, is a parameter. The loop
-- over the divisors takes six rounds, since a divisor is at most 32 and doubles in each.
--
-- SerialEcho models the callbacks of examples/generic_default/serial/main.c, with the events of
-- the timer and of the port in SerialEcho.Loop; whether `char` is signed is a parameter. AdcStream
-- models the callback that the programs examples/*/adc_dma_stream/main.c have in common (that of
-- the LPC82x compiles the printing where NDEBUG is defined), with the text and the memory as lists
-- of the given size.
--
-- UsbCdc models the programs examples/*/usb_cdc_*/main.c, which send back what a host sends over
-- USB: transferData against a port of the library (UsbCdc.Echo, with what is relied on in IsPort),
-- and the loop of main as a machine that makes one statement at a time, with the callbacks of the
-- port between any two of them (UsbCdc.Wakeup and UsbCdc.Progress, for the two streams of
-- usb_cdc_composite; the state has the flags of the streams and the number of bytes that wait, and
-- each write comes with the number of bytes that the stream accepts). The size of the buffer,
-- BOARD_UART_BUFFER, is a parameter. QspiNor models examples/m48x_default/qspi_nor/main.c; the
-- interface, the pin and the chip are the record Bus, and QspiNor.Identify.IsFlash says what the
-- data sheet asks for and answers. TimerFactory models the periodic tasks of
-- examples/generic_default/timer_factory/main.c and timer_factory_restarts/main.c: the timers are
-- parameters, Elapsed has the difference of two values, and the runs of OnTime and Restarts.OnTime
-- are calls of a timer that is on time.
--
-- Board is the language of the files examples/<platform>/shared/board.c, whose functions are
-- chains of calls of the library: a program (Prog) says what is called, in which order, and how it
-- goes on with the answers. Calls of `init` with the assertion on their result are `init`, a loop
-- on `clockReady` is wait_ready, other calls are `perform`; a configuration is a list of its
-- fields by their names, and a source that is no clock class of the library stays a word. The
-- library and the chip are the record Hardware, with what is relied on in Board.Laws.IsHardware,
-- and Board.Sample is a small chip that meets it. Board.run gives the run of a program; its fuel
-- bounds the passes of each loop, and more than IsHardware.limit, the time in which a clock or an
-- object gets ready, is enough. Board.Known says what is known of the clocks along a program and
-- which checks it has to pass, Board.Sound and Board.Safe that these are enough on any chip,
-- Board.Sequence and Board.Setups that they are for any number of programs one after the other.
-- Board.Answers is about hardware that answers a question with no, Board.Enabled about clocks that
-- are enabled and not waited for.
--
-- Lpc43xx, Lpc17xx, Lpc17xxTrace, Lpc82x, Lpc13uxx, Lpc13xx, Lpc11xx, Lpc11exx, Stm32f1xx,
-- Stm32f0xx, Stm32f4xx, M48x, M03x and Bl602 model the file board.c of examples/lpc43xx_default,
-- lpc17xx_default, lpc17xx_trace and so on, with a child module for each group of functions;
-- boardSetupAdc is board_setup_adc. Programs has the uses that the programs of the repository make
-- of them, Safe the result for all of these, and Boards collects the boards of a family. The
-- clocks that an object needs ready are `needs` in Programs, those that a file only enables before
-- it makes the object are `feeds`. Lpc43xx.Sdram is the setup that changes the PLL through Pll,
-- Bl602.Waits a loop on the wrong clock.
--
-- EthRaw models examples/lpc43xx_default/eth_raw/main.c, a memory that a host fills and reads by
-- frames, and the packets of the host's script eth_raw.py beside it. The network interface is the
-- record Interface, with what is relied on in EthRaw.Reply.IsInterface. EthRaw.Phy has phyInit,
-- with the PHY behind the record Mdio. EthRaw.Session has the loop of main on the frames that it
-- reads, for all that a run of the script sends. An access outside the arena or the frame buffer
-- ends a run with `overrun`. There is fuel for the loop that offers a frame to the interface until
-- it is taken: one round more than the interface can refuse a frame is enough. All other loops
-- count down.
--
-- Not modelled are boardGetAdcPinCount of the files board.c, the files board.c of
-- imxrt106x_default and lpc43xx_m0app, whose core takes its clock from settings inside the library
-- or from the other core, the programs not named above (their code is a chain of calls of the
-- library or of libuv), the set up that the modelled programs do before their loops, the setups of
-- SDIO of LPC17xx with a timer in the runs of their boards, linker scripts, build files and tools.
pub mod Base
pub mod Flash
pub mod EmcFlash
pub mod Sct
pub mod SctAdc
pub mod SctSof
pub mod EthRaw
pub mod Pll
pub mod SerialEcho
pub mod AdcStream
pub mod UsbCdc
pub mod QspiNor
pub mod TimerFactory
pub mod Board
pub mod Lpc43xx
pub mod Lpc17xx
pub mod Lpc82x
pub mod Lpc13uxx
pub mod Lpc13xx
pub mod Lpc11xx
pub mod Lpc11exx
pub mod Stm32f1xx
pub mod Stm32f0xx
pub mod Stm32f4xx
pub mod Lpc17xxTrace
pub mod M48x
pub mod M03x
pub mod Bl602
pub mod Boards
