-- ===== src/UsbCdc/Wakeup.antt =====
-- No byte waits without a flag, at any point of the loop of main of the files
-- examples/*/usb_cdc_*/main.c, however the callbacks fall between its statements.
use halm_examples.Base.{ℕ, ◌<◌, ◌≡◌, ◌⊎◌, Bool, true, false, List, [], ◌∷◌, arith, ◌==◌}
use halm_examples.UsbCdc.{
  Streams, Place, poll, serve, clearing, reading, writing, checking, Event, program, arrive, handle,
  run, step, step_at, init_streams, on_serial_event,
}

-- The program is copying the bytes of the stream.
abbrev pub copies : Place → ℕ → Bool
copies (reading i) j = j == i
copies (writing i left) j = j == i
copies (checking i) j = j == i
copies _ j = false

-- The bytes that wait have set the flag, or are being copied.
abbrev pub IsAwakeAt : Place → Streams → Type 0
IsAwakeAt p s = (j : ℕ) → 0 < s.waiting j → (s.event j ≡ true) ⊎ (copies p j ≡ true)

abbrev pub IsAwake : Streams → Type 0
IsAwake s = IsAwakeAt s.place s

module _ (buffer_size : ℕ) where
  pub step_at-IsAwake :
      (accepted : ℕ) (p : Place) (s : Streams)
      → IsAwakeAt p s
      → IsAwake (step_at buffer_size accepted p s)
  unfolding step_at
  step_at-IsAwake accepted (poll i event) s awake j w = ground (arith, awake j)
  step_at-IsAwake accepted (serve i) s awake j w = ground (arith, awake j)
  step_at-IsAwake accepted (clearing i) s awake j w = ground (arith, awake j)
  step_at-IsAwake accepted (reading i) s awake j w = ground (arith, awake j)
  step_at-IsAwake accepted (writing i left) s awake j w = ground (arith, awake j)
  step_at-IsAwake accepted (checking i) s awake j w = ground (arith, awake j)

  handle-IsAwake : (e : Event) (s : Streams) → IsAwake s → IsAwake (handle buffer_size e s)
  unfolding handle step on_serial_event
  handle-IsAwake (program accepted) s awake j w = step_at-IsAwake accepted s.place s awake j w
  handle-IsAwake (arrive i count) s awake j w = ground (arith, awake j)

  run_from-IsAwake : (es : List Event) (s : Streams) → IsAwake s → IsAwake (run buffer_size es s)
  unfolding run
  run_from-IsAwake [] s awake = awake
  run_from-IsAwake (e ∷ es) s awake =
      run_from-IsAwake es (handle buffer_size e s) (handle-IsAwake e s awake)

  -- However the statements of main and the arrivals of bytes follow each other, and however many bytes
  -- the buffer holds and a stream accepts, the bytes that wait in the driver of a stream have set its
  -- flag, or the program is in the loop that copies them.
  pub run-IsAwake : (es : List Event) → IsAwake (run buffer_size es init_streams)
  unfolding init_streams
  run-IsAwake es = run_from-IsAwake es init_streams λ j w. absurd (omega (arith, w))
