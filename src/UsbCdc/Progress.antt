-- ===== src/UsbCdc/Progress.antt =====
-- The loop of main of the files examples/*/usb_cdc_composite/main.c comes to serve every stream.
use halm_examples.Base.{
  ℕ, zero, suc, ◌+◌, ◌≤◌, ◌<◌, ◌≡◌, ◌⊎◌, inl, inr, refl, sym, Bool, true, false, List, arith, ◌==◌,
  ltb, min, ◌-◌, Bool-cases, ◌||◌,
}
use halm_examples.UsbCdc.{
  Streams, Place, poll, serve, clearing, reading, writing, checking, Event, run, step, step_at,
  init_streams, update, stream_count,
}
use halm_examples.UsbCdc.Wakeup.{IsAwake, IsAwakeAt, step_at-IsAwake, run-IsAwake}

-- The program waits for events at the head of its loop, and no bytes wait for it.
abbrev pub IsIdle : Streams → Type 0
IsIdle s = (s.place ≡ poll 0 false) × ((j : ℕ) → j < stream_count → s.waiting j ≡ 0)

module _ (buffer_size : ℕ) where
  -- The program comes to a state with the property when no bytes arrive any more, whatever the streams
  -- accept, where at most `refusals` of the steps meet a stream that accepts nothing.
  pub data Eventually (P : Streams → Type 0) : ℕ → Streams → Type 0 where
    now : {refusals : ℕ} {s : Streams} → P s → Eventually P refusals s
    next :
        {refusals : ℕ} {s : Streams}
        → ((accepted : ℕ) → 0 < accepted → Eventually P refusals (step buffer_size accepted s))
        → ((fewer : ℕ) → refusals ≡ suc fewer → Eventually P fewer (step buffer_size 0 s))
        → Eventually P refusals s

  -- With any number of refusals.
  abbrev pub Surely : (P : Streams → Type 0) → Streams → Type 0
  Surely P s = (refusals : ℕ) → Eventually P refusals s

  bind-Eventually :
      {P Q : Streams → Type 0} {refusals : ℕ} {s : Streams}
      → Eventually P refusals s
      → ((t : Streams) → P t → Surely Q t)
      → Eventually Q refusals s
  bind-Eventually (Eventually.now x) f = f _ x _
  bind-Eventually (Eventually.next e e') f =
      Eventually.next (λ a more. bind-Eventually (e a more) f) λ r le. bind-Eventually (e' r le) f

  bind-Surely :
      {P Q : Streams → Type 0} {s : Streams}
      → Surely P s
      → ((t : Streams) → P t → Surely Q t)
      → Surely Q s
  bind-Surely e f = λ r. bind-Eventually (e r) f

  here : {P : Streams → Type 0} {s : Streams} → P s → Surely P s
  here x = λ r. Eventually.now x

  -- By a step that comes to the same place whatever the stream accepts.
  onward :
      {P : Streams → Type 0} {s : Streams}
      → ((accepted : ℕ) → Surely P (step buffer_size accepted s))
      → Surely P s
  onward f = λ r. Eventually.next (λ a more. f a r) λ r' e. f 0 r'

  abbrev at : Place → Streams → Streams
  at p s = record s { place = p }

  -- Nothing waits for the streams from `b` to `i`.
  abbrev pub IsDrained : (b i : ℕ) → Streams → Type 0
  IsDrained b i s = (j : ℕ) → b ≤ j → j < i → s.waiting j ≡ 0

  abbrev At : Place → (b i : ℕ) → Streams → Type 0
  At p b i t = (t.place ≡ p) × IsAwake t × IsDrained b i t

  -- After a read: the loop is left, or goes round once more.
  check_lem :
      (i b : ℕ) (s : Streams)
      → IsAwakeAt (checking i) s
      → IsDrained b i s
      → (0 < s.waiting i → Surely (At (serve (i + 1)) b (i + 1)) (at (reading i) s))
      → Surely (At (serve (i + 1)) b (i + 1)) (at (checking i) s)
  unfolding step step_at
  check_lem i b s awake drained again = elim (Bool-cases (s.waiting i == 0)) [
    | inl e ↦
        let empty : s.waiting i ≡ 0 = ground arith in
        let awake' : IsAwakeAt (serve (i + 1)) s = λ j w. ground (arith, awake j, empty) in
        onward λ a. (rw e (here (refl, awake', λ j from to. ground (arith, drained j from, empty))))
    | inr e ↦ onward (λ a. rw e (again (ground arith)))
  ]

  -- The loop on `length` ends, as each call takes some bytes or is one of the refusals.
  write_lem :
      {Q : Streams → Type 0} (fuel i : ℕ) (s : Streams)
      → Surely Q (at (checking i) s)
      → (left refusals : ℕ) → left + refusals ≤ fuel
      → Eventually Q refusals (at (writing i left) s)
  unfolding step step_at
  write_lem zero i s after left refusals le =
      let e : (left == 0) ≡ true = ground (arith, le) in onward (λ a. rw e after) refusals
  write_lem (suc fuel) i s after left refusals le = elim (Bool-cases (left == 0)) [
    | inl e ↦ onward (λ a. rw e after) refusals
    | inr e ↦
        Eventually.next
          (λ a more.
            rw e
              (write_lem fuel i s after (left - min a left) refusals (ground (arith, le, more, e))))
          λ r eq. rw e (write_lem fuel i s after (left - min 0 left) r (ground (arith, le, eq, e)))
  ]

  read_once :
      (i b : ℕ) (s : Streams)
      → IsAwakeAt (reading i) s
      → IsDrained b i s
      → (let s' = step_at buffer_size 0 (reading i) s in
          IsAwakeAt (checking i) s'
          → IsDrained b i s'
          → 0 < s'.waiting i
          → Surely (At (serve (i + 1)) b (i + 1)) (at (reading i) s'))
      → Surely (At (serve (i + 1)) b (i + 1)) (at (reading i) s)
  unfolding step step_at
  read_once i b s awake drained again =
      let s' = step_at buffer_size 0 (reading i) s in
      let awake' : IsAwakeAt (checking i) s' = step_at-IsAwake buffer_size 0 (reading i) s awake in
      let drained' : IsDrained b i s' = λ j from to. ground (arith, drained j from to) in
      let written = min buffer_size (s.waiting i) in
      let after = check_lem i b s' awake' drained' (again awake' drained') in
      onward (λ a. λ r. write_lem (written + r) i s' after written r (omega arith))

  module _ (room : 0 < buffer_size) where
    read_lem :
        (w i b : ℕ) (s : Streams)
        → s.waiting i ≤ w
        → IsAwakeAt (reading i) s
        → IsDrained b i s
        → Surely (At (serve (i + 1)) b (i + 1)) (at (reading i) s)
    unfolding step_at
    read_lem zero i b s le awake drained =
        read_once i b s awake drained λ awake' drained' more. absurd (ground (arith, le))
    read_lem (suc w) i b s le awake drained = read_once i b s awake drained λ awake' drained' more.
        read_lem w i b (step_at buffer_size 0 (reading i) s) (ground (arith, le)) awake' drained'

    clear_lem :
        (i b : ℕ) (s : Streams)
        → IsAwakeAt (clearing i) s
        → IsDrained b i s
        → Surely (At (serve (i + 1)) b (i + 1)) (at (clearing i) s)
    unfolding step step_at
    clear_lem i b s awake drained =
        let s' = record s { event = update s.event i false } in
        onward
          λ a. read_lem (s.waiting i) i b s' (omega arith) (λ j w. ground (arith, awake j)) drained

    -- To go on from a place that has been reached.
    resume :
        {Q : Streams → Type 0} (p : Place) (b i : ℕ) (t : Streams)
        → At p b i t
        → (IsAwakeAt p t → IsDrained b i t → Surely Q (at p t))
        → Surely Q t
    resume {Q} p b i t (e, awake, drained) f =
        let awake' : IsAwakeAt p t = rw (sym e) awake in
        let there : Surely Q (at p t) = f awake' drained in rw (sym e) at there

    -- The last stream has been served.
    serve_end :
        (i b : ℕ) (s : Streams)
        → ltb i stream_count ≡ false
        → IsAwakeAt (serve i) s
        → IsDrained b i s
        → Surely (At (poll 0 false) b stream_count) (at (serve i) s)
    unfolding step step_at
    serve_end i b s t awake drained =
        let le : stream_count ≤ i = ground (arith, t) in
        onward λ a. (rw t (here (refl, awake, λ j from to. drained j from (omega (arith, le, to)))))

    serve_lem :
        (m i b : ℕ) (s : Streams)
        → stream_count ≤ m + i
        → IsAwakeAt (serve i) s
        → IsDrained b i s
        → Surely (At (poll 0 false) b stream_count) (at (serve i) s)
    unfolding step step_at
    serve_lem zero i b s e awake drained = serve_end i b s (ground (arith, e)) awake drained
    serve_lem (suc m) i b s e awake drained = elim (Bool-cases (ltb i stream_count)) [
      | inr t ↦ serve_end i b s t awake drained
      | inl t ↦ elim (Bool-cases (s.event i)) [
        | inl f ↦ onward (λ a.
            rw (t, f)
              (bind-Surely (clear_lem i b s awake drained) λ u r.
                resume (serve (i + 1)) b (i + 1) u r (serve_lem m (i + 1) b u (omega (arith, e)))))
        | inr f ↦ onward (λ a.
            rw (t, f)
              (serve_lem m (i + 1) b s (omega (arith, e)) awake
                λ j from to. ground (arith, awake i, drained j from, f)))
      ]
    ]

    -- A flag that is down when it is looked at belongs to a stream with nothing to copy.
    seen_more :
        (i b : ℕ) (event : Bool) (s : Streams)
        → IsAwakeAt (poll i event) s
        → (event ≡ true) ⊎ IsDrained b i s
        → ((event || s.event i) ≡ true) ⊎ IsDrained b (i + 1) s
    seen_more i b true s awake seen = inl refl
    seen_more i b false s awake (inl e) = absurd (ground (arith, e))
    seen_more i b false s awake (inr drained) = elim (Bool-cases (s.event i)) [
      | inl f ↦ inl f
      | inr f ↦ inr λ j from to. ground (arith, awake i, drained j from, f)
    ]

    -- All the flags have been looked at.
    scan_end :
        (i b : ℕ) (event : Bool) (s : Streams)
        → ltb i stream_count ≡ false
        → IsAwakeAt (poll i event) s
        → (event ≡ true) ⊎ IsDrained b i s
        → Surely (At (poll 0 false) b stream_count) (at (poll i event) s)
    unfolding step step_at
    scan_end i b true s t awake seen =
        let served =
          serve_lem stream_count 0 0 s (omega arith) awake
            λ j from to. absurd (omega (arith, to)) in
        onward (λ a.
          rw t (bind-Surely served λ u r. here (r.0, r.1, λ j from to. r.2 j (omega arith) to)))
    scan_end i b false s t awake (inl seen) = absurd (ground (arith, seen))
    scan_end i b false s t awake (inr drained) =
        let le : stream_count ≤ i = ground (arith, t) in
        onward λ a. (rw t (here (refl, awake, λ j from to. drained j from (omega (arith, le, to)))))

    scan_lem :
        (m i b : ℕ) (event : Bool) (s : Streams)
        → stream_count ≤ m + i
        → IsAwakeAt (poll i event) s
        → (event ≡ true) ⊎ IsDrained b i s
        → Surely (At (poll 0 false) b stream_count) (at (poll i event) s)
    unfolding step step_at
    scan_lem zero i b event s e awake seen = scan_end i b event s (ground (arith, e)) awake seen
    scan_lem (suc m) i b event s e awake seen = elim (Bool-cases (ltb i stream_count)) [
      | inr t ↦ scan_end i b event s t awake seen
      | inl t ↦ onward (λ a. rw t (
          scan_lem m (i + 1) b (event || s.event i) s (omega (arith, e)) awake
            (seen_more i b event s awake seen)))
    ]

    nothing_before : (i : ℕ) (s : Streams) → IsDrained i i s
    nothing_before i s j from to = absurd (omega (arith, from, to))

    -- The program comes to the head of its loop from anywhere.
    abbrev base : Place → ℕ
    base (poll i event) = i
    base (serve i) = i
    base (clearing i) = i
    base (reading i) = i
    base (writing i left) = i
    base (checking i) = i

    -- From a place in the service of a stream.
    finish :
        (i : ℕ) (s : Streams)
        → Surely (At (serve (i + 1)) i (i + 1)) s
        → Surely (At (poll 0 false) i stream_count) s
    finish i s served = bind-Surely served λ u r.
        resume (serve (i + 1)) i (i + 1) u r (serve_lem stream_count (i + 1) i u (omega arith))

    checked :
        (i : ℕ) (s : Streams)
        → IsAwakeAt (checking i) s
        → Surely (At (serve (i + 1)) i (i + 1)) (at (checking i) s)
    checked i s awake =
        check_lem i i s awake (nothing_before i s)
          λ more. read_lem (s.waiting i) i i s (omega arith) awake (nothing_before i s)

    to_head :
        (p : Place) (s : Streams)
        → IsAwakeAt p s
        → Surely (At (poll 0 false) (base p) stream_count) (at p s)
    to_head (poll i event) s awake =
        scan_lem stream_count i i event s (omega arith) awake (inr (nothing_before i s))
    to_head (serve i) s awake =
        serve_lem stream_count i i s (omega arith) awake (nothing_before i s)
    to_head (clearing i) s awake = finish i _ (clear_lem i i s awake (nothing_before i s))
    to_head (reading i) s awake =
        finish i _ (read_lem (s.waiting i) i i s (omega arith) awake (nothing_before i s))
    to_head (writing i left) s awake =
        finish i _ λ r. write_lem (left + r) i s (checked i s awake) left r (omega arith)
    to_head (checking i) s awake = finish i _ (checked i s awake)

    -- Whatever has happened since the start, when no more bytes arrive and the streams accept nothing
    -- for at most a given number of steps, whichever those are, the program comes after finitely many
    -- steps to the head of its loop with no byte left in any stream.
    pub run-Eventually : (es : List Event) → Surely IsIdle (run buffer_size es init_streams)
    run-Eventually es =
        let s = run buffer_size es init_streams in
        bind-Surely (to_head s.place s (run-IsAwake buffer_size es)) λ u r.
          resume (poll 0 false) (base s.place) stream_count u r λ awake drained.
            bind-Surely
              (scan_lem stream_count 0 0 false u (omega arith) awake (inr (nothing_before 0 u)))
              λ v q. here (q.0, λ j to. q.2 j (omega arith) to)
