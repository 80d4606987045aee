-- ===== src/UsbCdc.antt =====
-- The programs examples/*/usb_cdc_*/main.c, which send the bytes that come from a host over USB back
-- to it: `transferData` copies what one stream has received, and the loop of main waits for the
-- events of the streams. The functions are those of examples/lpc43xx_default/usb_cdc_composite, which
-- the other programs repeat (that of usb_cdc_strings for one stream).
pub mod Echo
pub mod Wakeup
pub mod Progress
mod Tests
use halm_examples.Base.{
  ◌>>=◌, ℕ, zero, suc, ◌+◌, ◌-◌, Bool, true, false, not, ◌||◌, Option, none, some, List, [], ◌∷◌,
  length, drop, leb, ltb, ◌==◌, if◌then◌else◌, min,
}

-- The serial interface of the library, with all that happens around it: `read` gives at most so many
-- bytes, `write` takes some of the bytes and tells how many, `available` is IF_RX_AVAILABLE.
pub record Port : Type 1 where
  pub Hw : Type 0
  pub read : ℕ → Hw → List ℕ × Hw
  pub write : List ℕ → Hw → ℕ × Hw
  pub available : Hw → ℕ

module _ (p : Port) where
  open p use {Hw, read, write, available}

  pub record Board : Type 0 where
    pub hw : Hw
    pub led : Bool

  unfoldable pub pin_toggle : Board → Board
  pin_toggle b = record b { led = not b.led }

  -- The loop on `length`: `none` when more passes are needed, or more than there is has been written.
  unfoldable pub write_all : (passes : ℕ) → List ℕ → Hw → Option Hw
  write_all passes [] h = some h
  write_all zero (x ∷ xs) h = none
  write_all (suc passes) (x ∷ xs) h =
      let (written, h') = write (x ∷ xs) h in
      let rest = write_all passes (drop written (x ∷ xs)) h' in
      if leb written (length (x ∷ xs)) then rest else none

  -- `buffer_size` is BOARD_UART_BUFFER of the board.
  module _ (buffer_size : ℕ) where
    -- The loop on `available`.
    unfoldable pub copy : (rounds passes : ℕ) → Hw → Option Hw
    copy zero passes h = none
    copy (suc rounds) passes h =
        let (buffer, h') = read buffer_size h in
        do
          next ← write_all passes buffer h'
          let rest = copy rounds passes next
          if available next == 0 then some next else rest

    unfoldable pub transfer_data : (rounds passes : ℕ) → Board → Option Board
    transfer_data rounds passes b =
        let b' = pin_toggle b in
        do h ← copy rounds passes b'.hw; some (pin_toggle (record b' { hw = h }))

-- The loop of main, statement by statement, for `stream_count` streams. `poll i event` is the loop
-- that collects the events, `serve i` the one that serves them, `clearing i` its body; `reading i`,
-- `writing i left` with the bytes that have not been written yet, and `checking i` are in the loops of
-- transferData.
abbrev pub stream_count : ℕ
stream_count = 2

pub data Place : Type 0 where
  poll : (i : ℕ) (event : Bool) → Place
  serve clearing reading checking : (i : ℕ) → Place
  writing : (i left : ℕ) → Place

-- `event` of each stream, the bytes that wait in its driver, and where the program is.
pub record Streams : Type 0 where
  pub event : ℕ → Bool
  pub waiting : ℕ → ℕ
  pub place : Place

abbrev pub update {ℓ} : {A : Type ℓ} → (ℕ → A) → ℕ → A → ℕ → A
update f i x j = if j == i then x else f j

-- The callback of stream `i`.
unfoldable pub on_serial_event : (i : ℕ) → Streams → Streams
on_serial_event i s = record s { event = update s.event i true }

-- What initStreams and the first pass of main leave.
unfoldable pub init_streams : Streams
init_streams = record { event = λ i. false; waiting = λ i. 0; place = poll 0 false }

-- Between any two steps of the program, bytes arrive from the host, and the callback is called. A
-- step of the program comes with the number of bytes that the stream accepts, which counts where the
-- step is a write.
pub data Event : Type 0 where
  program : (accepted : ℕ) → Event
  arrive : (i count : ℕ) → Event

module _ (buffer_size : ℕ) where
  unfoldable pub step_at : (accepted : ℕ) → Place → Streams → Streams
  step_at accepted (poll i event) s =
      if ltb i stream_count
      then record s { place = poll (i + 1) (event || s.event i) }
      else record s { place = if event then serve 0 else poll 0 false }
  step_at accepted (serve i) s =
      if ltb i stream_count
      then record s { place = if s.event i then clearing i else serve (i + 1) }
      else record s { place = poll 0 false }
  step_at accepted (clearing i) s = record s { event = update s.event i false; place = reading i }
  step_at accepted (reading i) s = record s {
    waiting = update s.waiting i (s.waiting i - min buffer_size (s.waiting i));
    place = writing i (min buffer_size (s.waiting i));
  }
  step_at accepted (writing i left) s = record s {
    place = if left == 0 then checking i else writing i (left - min accepted left);
  }
  step_at accepted (checking i) s = record s {
    place = if s.waiting i == 0 then serve (i + 1) else reading i;
  }

  -- The next step of the program.
  unfoldable pub step : (accepted : ℕ) → Streams → Streams
  step accepted s = step_at accepted s.place s

  unfoldable pub handle : Event → Streams → Streams
  handle (program accepted) s = step accepted s
  handle (arrive i count) s =
      on_serial_event i (record s { waiting = update s.waiting i (s.waiting i + count) })

  unfoldable pub run : List Event → Streams → Streams
  run [] s = s
  run (e ∷ es) s = run es (handle e s)
