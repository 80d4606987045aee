-- ===== src/UsbCdc/Tests.antt =====
-- A small port, which takes two bytes at a time and refuses every other call, and runs on it.
use halm_examples.Base.{
  ℕ, ◌≤◌, ◌<◌, ◌≡◌, refl, sym, Bool, true, false, some, List, [], ◌∷◌, ◌++◌, length, length-take,
  length-drop, take, drop, min, arith,
}
use mathlib.Core.List.{append-nil}
use halm_examples.UsbCdc.{Port, Board, transfer_data, Event, program, arrive, run, init_streams}
use halm_examples.UsbCdc.Echo.{IsPort, Echoes, transfer_data-Echoes}
use halm_examples.UsbCdc.Wakeup.{IsAwake, run-IsAwake}
use halm_examples.UsbCdc.Progress.{Surely, IsIdle, run-Eventually}

record Line : Type 0 where
  incoming : List ℕ
  taken : List ℕ
  sent : List ℕ
  is_stalled : Bool

abbrev read : ℕ → Line → List ℕ × Line
read n h = (
  take n h.incoming,
  record h { incoming = drop n h.incoming; taken = h.taken ++ take n h.incoming },
)

abbrev write_line : Bool → List ℕ → Line → ℕ × Line
write_line true xs h = (0, record h { is_stalled = false })
write_line false xs h = (
  min 2 (length xs),
  record h { is_stalled = true; sent = h.sent ++ take (min 2 (length xs)) xs },
)

abbrev port : Port
port = record {
  Hw = Line;
  read = read;
  write = λ xs h. write_line h.is_stalled xs h;
  available = λ h. length h.incoming;
}

abbrev busy : Bool → ℕ
busy true = 1
busy false = 0

busy_le : (b : Bool) → busy b ≤ 1
busy_le b = ground arith

write_le : (b : Bool) (xs : List ℕ) (h : Line) → (write_line b xs h).0 ≤ length xs
write_le true xs h = omega arith
write_le false xs h = omega arith

sent-write :
    (b : Bool) (xs : List ℕ) (h : Line)
    → (write_line b xs h).1.sent ≡ h.sent ++ take (write_line b xs h).0 xs
sent-write true xs h = sym (append-nil h.sent)
sent-write false xs h = refl

taken-write : (b : Bool) (xs : List ℕ) (h : Line) → (write_line b xs h).1.taken ≡ h.taken
taken-write true xs h = refl
taken-write false xs h = refl

to_come-write :
    (b : Bool) (xs : List ℕ) (h : Line) → length (write_line b xs h).1.incoming ≡ length h.incoming
to_come-write true xs h = refl
to_come-write false xs h = refl

refused :
    (b : Bool) (xs : List ℕ) (h : Line)
    → 0 < length xs
    → (write_line b xs h).0 ≡ 0
    → busy (write_line b xs h).1.is_stalled < busy b
refused true xs h more e = omega arith
refused false xs h more e = absurd (omega (arith, more, e))

port-IsPort : IsPort port
port-IsPort = record {
  taken = λ h. h.taken;
  sent = λ h. h.sent;
  to_come = λ h. length h.incoming;
  busy = λ h. busy h.is_stalled;
  limit = 1;
  busy_le = λ h. busy_le h.is_stalled;
  read_le = λ n h. omega (arith, length-take n h.incoming);
  taken-read = λ n h. refl;
  sent-read = λ n h. refl;
  to_come-read = λ n h. omega (arith, length-take n h.incoming, length-drop n h.incoming);
  read_some = λ n h pos some'. omega (arith, length-take n h.incoming, pos, some');
  write_le = λ xs h. write_le h.is_stalled xs h;
  sent-write = λ xs h. sent-write h.is_stalled xs h;
  taken-write = λ xs h. taken-write h.is_stalled xs h;
  to_come-write = λ xs h. to_come-write h.is_stalled xs h;
  refused = λ xs h more e. refused h.is_stalled xs h more e;
}

abbrev hello : Board port
hello = record {
  hw = record {
    incoming = 104 ∷ 101 ∷ 108 ∷ 108 ∷ 111 ∷ [];
    taken = [];
    sent = [];
    is_stalled = true;
  };
  led = false;
}

transfer_data-Echoes_example :
    (b' : Board port) × (transfer_data port 128 6 256 hello ≡ some b')
    × (b'.led ≡ false)
    × Echoes port port-IsPort hello.hw b'.hw
unfolding port-IsPort
transfer_data-Echoes_example =
    transfer_data-Echoes port port-IsPort 128 (omega arith) 6 256 hello (omega arith) (omega arith)

-- Bytes for the second stream arrive while the program collects the events, and once more while it
-- copies those of the first, of which the port takes 100 and then none.
abbrev arrivals : List Event
arrivals =
    arrive 0 700
    ∷ program 1
    ∷ arrive 1 3
    ∷ program 1
    ∷ program 1
    ∷ program 1
    ∷ program 1
    ∷ program 1
    ∷ program 100
    ∷ program 0
    ∷ arrive 1 2
    ∷ []

run-IsAwake_example : IsAwake (run 512 arrivals init_streams)
run-IsAwake_example = run-IsAwake 512 arrivals

run-Eventually_example : Surely 128 IsIdle (run 128 arrivals init_streams)
run-Eventually_example = run-Eventually 128 (omega arith) arrivals
