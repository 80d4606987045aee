-- ===== src/SerialEcho/Loop.antt =====
-- The events of examples/generic_default/serial/main.c until its end: the ticks of the timer, and
-- the bytes that come back in pieces.
use halm_examples.Base.{
  ℕ, zero, suc, ◌+◌, ◌-◌, ◌*◌, ◌/◌, ◌%◌, ◌^◌, ◌≤◌, ◌<◌, ◌≡◌, refl, ap, ◌∙◌, Bool, true, false, List,
  [], ◌∷◌, ◌++◌, length, length-append, min, ltb, ◌==◌, arith, Bool-cases, inl, inr,
}
use halm_examples.SerialEcho.{
  Context, Tick, write, interrupt, message, decimal, on_timer_overflow, on_serial_event, is_success,
  message_size, max_iterations,
}

abbrev after_tick : Tick → List ℕ × Bool → List ℕ × Bool
after_tick (write bytes) rest = (bytes ++ rest.0, rest.1)
after_tick interrupt rest = ([], true)

-- What the next `n` ticks send, and whether one of them ends the program.
unfoldable pub ticks : (n iteration : ℕ) → List ℕ × Bool
ticks zero iteration = ([], false)
ticks (suc n) iteration =
    let (tick, next) = on_timer_overflow iteration in after_tick tick (ticks n next)

unfoldable pub receive : (signed : Bool) → List (List ℕ) → Context → Context
receive signed [] context = context
receive signed (bytes ∷ more) context = receive signed more (on_serial_event signed bytes context)

abbrev pub total : List (List ℕ) → ℕ
total [] = 0
total (bytes ∷ more) = length bytes + total more

abbrev pub nothing : Context
nothing = record { counter = 0; printed = [] }

length-decimal : (width n : ℕ) → length (decimal width n) ≡ width
unfolding decimal
length-decimal zero n = refl
length-decimal (suc width) n =
    length-append (decimal width (n / 10)) ((0x30 + n % 10) ∷ [])
    ∙ omega (arith, length-decimal width (n / 10))

length-message : (iteration : ℕ) → length (message iteration) ≡ message_size
unfolding message
length-message iteration =
    let n = length-append (decimal 9 iteration) (0x0D ∷ 0x0A ∷ []) in
    let m = length-decimal 9 iteration in omega (arith, n, m)

on_timer_overflow_write :
    (iteration : ℕ)
    → ltb iteration max_iterations ≡ true
    → on_timer_overflow iteration ≡ (write (message iteration), iteration + 1)
unfolding on_timer_overflow
on_timer_overflow_write iteration more = rw more refl

on_timer_overflow_interrupt :
    (iteration : ℕ)
    → ltb iteration max_iterations ≡ false
    → on_timer_overflow iteration ≡ (interrupt, iteration)
unfolding on_timer_overflow
on_timer_overflow_interrupt iteration over = rw over refl

ticks_write :
    (n iteration : ℕ)
    → ltb iteration max_iterations ≡ true
    → ticks (suc n) iteration
      ≡ (message iteration ++ (ticks n (iteration + 1)).0, (ticks n (iteration + 1)).1)
unfolding ticks
ticks_write n iteration more =
    ap (λ p. after_tick p.0 (ticks n p.1)) (on_timer_overflow_write iteration more)

ticks_interrupt :
    (n iteration : ℕ) → ltb iteration max_iterations ≡ false → ticks (suc n) iteration ≡ ([], true)
unfolding ticks
ticks_interrupt n iteration over =
    ap (λ p. after_tick p.0 (ticks n p.1)) (on_timer_overflow_interrupt iteration over)

-- The ticks send messages until the tenth; the next one ends the program.
length-ticks :
    (n iteration : ℕ)
    → (length (ticks n iteration).0 ≡ message_size * min n (max_iterations - iteration))
      × ((ticks n iteration).1 ≡ ltb (max_iterations - iteration) n)
unfolding ticks
length-ticks zero iteration = (omega arith, ground arith)
length-ticks (suc n) iteration = elim (Bool-cases (ltb iteration max_iterations)) [
  | inl more ↦
      let (ih, last) = length-ticks n (iteration + 1) in
      let m = length-message iteration in
      let both = length-append (message iteration) (ticks n (iteration + 1)).0 in
      let below : iteration < 10 = ground arith in
      rw (ticks_write n iteration more) (omega (arith, both, m, ih, below), last ∙ ground arith)
  | inr over ↦
      let above : 10 ≤ iteration = ground arith in
      rw (ticks_interrupt n iteration over) (omega (arith, above), ground arith)
]

counter-on_serial_event :
    (signed : Bool) (bytes : List ℕ) (context : Context)
    → context.counter + length bytes < 2 ^ 64
    → (on_serial_event signed bytes context).counter ≡ context.counter + length bytes
unfolding on_serial_event
counter-on_serial_event signed bytes context lt = elim (Bool-cases (ltb 0 (length bytes))) [
  | inl some' ↦ rw some' (omega (arith, lt))
  | inr none' ↦ rw none' (omega (arith, lt))
]

counter-receive :
    (signed : Bool) (pieces : List (List ℕ)) (context : Context)
    → context.counter + total pieces < 2 ^ 64
    → (receive signed pieces context).counter ≡ context.counter + total pieces
unfolding receive
counter-receive signed [] context lt = omega arith
counter-receive signed (bytes ∷ more) context lt =
    let here = counter-on_serial_event signed bytes context (omega (arith, lt)) in
    let ih =
      counter-receive signed more (on_serial_event signed bytes context)
        (omega (arith, here, lt)) in
    omega (arith, here, ih)

-- After eleven ticks or more the program has been ended, and its status is success if and only if
-- as many bytes came back as were sent, in whatever pieces they came, below 2 ^ 64 bytes.
pub receive-ticks :
    (signed : Bool) (n : ℕ) (pieces : List (List ℕ))
    → 10 < n
    → total pieces < 2 ^ 64
    → ((ticks n 0).1 ≡ true)
      × (is_success (receive signed pieces nothing) ≡ (total pieces == length (ticks n 0).0))
unfolding is_success
receive-ticks signed n pieces lt small =
    let (sent, ended) = length-ticks n 0 in
    let received = counter-receive signed pieces nothing (omega (arith, small)) in
    let size : length (ticks n 0).0 ≡ 160 = omega (arith, sent, lt) in
    (ended ∙ ground arith, rw (received, size) (ground arith))
