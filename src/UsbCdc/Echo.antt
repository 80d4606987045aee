-- ===== src/UsbCdc/Echo.antt =====
-- `transferData` of the files examples/*/usb_cdc_*/main.c sends back all that it reads.
use mathlib.Core.List.{append-nil, append_assoc}
use halm_examples.Base.{
  ◌>>=◌, ℕ, zero, suc, ◌+◌, ◌*◌, ◌≤◌, ◌<◌, ◌≡◌, refl, sym, ap, ◌∙◌, Bool, true, false, not, Option,
  some, List, [], ◌∷◌, ◌++◌, length, length-drop, take, drop, leb, ◌==◌, arith, Bool-cases, inl,
  inr,
}
use halm_examples.UsbCdc.{Port, Board, write_all, copy, transfer_data, pin_toggle}

append-take-drop : {A : Type 0} (n : ℕ) (xs : List A) → take n xs ++ drop n xs ≡ xs
append-take-drop zero xs = refl
append-take-drop (suc n) [] = refl
append-take-drop (suc n) (x ∷ xs) = ap (λ r. x ∷ r) (append-take-drop n xs)

-- The passes that so many bytes can need, when the port refuses for at most `limit` passes on end.
abbrev passes_for : (limit n : ℕ) → ℕ
passes_for limit zero = 0
passes_for limit (suc n) = suc limit + passes_for limit n

passes_for_mono : (limit m n : ℕ) → m ≤ n → passes_for limit m ≤ passes_for limit n
passes_for_mono limit zero n le = omega arith
passes_for_mono limit (suc m) zero le = absurd (omega arith)
passes_for_mono limit (suc m) (suc n) le =
    omega (arith, passes_for_mono limit m n (omega (arith, le)))

passes_for_lem : (limit n : ℕ) → passes_for limit n ≡ n * suc limit
passes_for_lem limit zero = omega arith
passes_for_lem limit (suc n) = omega (arith, passes_for_lem limit n)

not-not : (b : Bool) → not (not b) ≡ b
not-not true = refl
not-not false = refl

-- What two rounds add, one after the other.
joined : {b c : List ℕ} (a x y : List ℕ) → c ≡ b ++ y → b ≡ a ++ x → c ≡ a ++ (x ++ y)
joined a x y later first = later ∙ ap (λ (l : List ℕ). l ++ y) first ∙ append_assoc a x y

pos_of : (n : ℕ) → (n == 0) ≡ false → 0 < n
pos_of n t = ground (arith, t)

module _ (p : Port) where
  open p use {Hw, read, write, available}

  -- What the program relies on: `taken` and `sent` are the bytes that have been read and accepted so
  -- far, and the bytes that the host still sends, with those that wait, are `to_come`. A port that
  -- announces bytes gives some, and one that refuses all bytes is `busy` and gets on with its work.
  pub record IsPort : Type 0 where
    pub taken : Hw → List ℕ
    pub sent : Hw → List ℕ
    pub to_come : Hw → ℕ
    pub busy : Hw → ℕ
    pub limit : ℕ
    pub busy_le : (h : Hw) → busy h ≤ limit
    pub read_le : (n : ℕ) (h : Hw) → length (read n h).0 ≤ n
    pub taken-read : (n : ℕ) (h : Hw) → taken (read n h).1 ≡ taken h ++ (read n h).0
    pub sent-read : (n : ℕ) (h : Hw) → sent (read n h).1 ≡ sent h
    pub to_come-read : (n : ℕ) (h : Hw) → to_come (read n h).1 + length (read n h).0 ≡ to_come h
    pub read_some : (n : ℕ) (h : Hw) → 0 < n → 0 < available h → 0 < length (read n h).0
    pub write_le : (xs : List ℕ) (h : Hw) → (write xs h).0 ≤ length xs
    pub sent-write : (xs : List ℕ) (h : Hw) → sent (write xs h).1 ≡ sent h ++ take (write xs h).0 xs
    pub taken-write : (xs : List ℕ) (h : Hw) → taken (write xs h).1 ≡ taken h
    pub to_come-write : (xs : List ℕ) (h : Hw) → to_come (write xs h).1 ≡ to_come h
    pub refused :
        (xs : List ℕ) (h : Hw) → 0 < length xs → (write xs h).0 ≡ 0 → busy (write xs h).1 < busy h

  module _ (d : IsPort) where
    open d use {
      taken, sent, to_come, busy, limit, busy_le, read_le, taken-read, sent-read, to_come-read,
      read_some, write_le, sent-write, taken-write, to_come-write, refused,
    }

    -- All the bytes have been written, and nothing else has changed.
    abbrev HasWritten : List ℕ → Hw → Option Hw → Type 0
    HasWritten xs h r =
        (h' : Hw) × (r ≡ some h')
        × (sent h' ≡ sent h ++ xs)
        × (taken h' ≡ taken h)
        × (to_come h' ≡ to_come h)

    -- Each call of the loop brings it nearer to its end.
    passes_left :
        (xs : List ℕ) (h : Hw)
        → 0 < length xs
        → (let (written, h') = write xs h in
            passes_for limit (length (drop written xs)) + busy h'
            < passes_for limit (length xs) + busy h)
    passes_left xs h more =
        let (written, h') = write xs h in
        let left = length-drop written xs in
        let fits = write_le xs h in
        elim (Bool-cases (written == 0)) [
          | inl t ↦
              let e : written ≡ 0 = ground arith in
              let less = refused xs h more e in rw e (omega (arith, less))
          | inr t ↦
              let shorter : suc (length (drop written xs)) ≤ length xs =
                omega (arith, left, fits, more, pos_of written t) in
              let room =
                passes_for_mono limit (suc (length (drop written xs))) (length xs) shorter in
              omega (arith, room, busy_le h')
        ]

    write_all_lem :
        (passes : ℕ) (xs : List ℕ) (h : Hw)
        → passes_for limit (length xs) + busy h ≤ passes + limit
        → HasWritten xs h (write_all p passes xs h)
    unfolding write_all
    write_all_lem passes [] h enough = (h, refl, sym (append-nil (sent h)), refl, refl)
    write_all_lem zero (x ∷ xs) h enough = absurd (omega (arith, enough))
    write_all_lem (suc passes) (x ∷ xs) h enough =
        let all = x ∷ xs in
        let (written, h') = write all h in
        let fits : leb written (length all) ≡ true = ground (arith, write_le all h) in
        let less = passes_left all h (omega arith) in
        let (h'', r, now, same, traffic) =
          write_all_lem passes (drop written all) h' (omega (arith, enough, less)) in
        (
          h'',
          rw fits r,
          now
              ∙ ap (λ (l : List ℕ). l ++ drop written all) (sent-write all h)
              ∙ append_assoc (sent h) (take written all) (drop written all)
              ∙ ap (λ (l : List ℕ). sent h ++ l) (append-take-drop written all),
          same ∙ taken-write all h,
          traffic ∙ to_come-write all h,
        )

    -- What has been read in between has been sent in the same order, and nothing waits.
    pub record Echoes (h next : Hw) : Type 0 where
      pub fresh : List ℕ
      pub all_taken : taken next ≡ taken h ++ fresh
      pub all_sent : sent next ≡ sent h ++ fresh
      pub drained : available next ≡ 0

    module _ (buffer_size : ℕ) (room : 0 < buffer_size) where
      copy_lem :
          (rounds passes : ℕ) (h : Hw)
          → to_come (read buffer_size h).1 < rounds
          → buffer_size * suc limit ≤ passes
          → (next : Hw) × (copy p buffer_size rounds passes h ≡ some next) × Echoes h next
      unfolding copy
      copy_lem zero passes h few enough = absurd (omega (arith, few))
      copy_lem (suc rounds) passes h few enough =
          let (buffer, h') = read buffer_size h in
          let short = passes_for_mono limit (length buffer) buffer_size (read_le buffer_size h) in
          let (next, r, now, same, traffic) =
            write_all_lem passes buffer h'
              (omega (arith, busy_le h', short, passes_for_lem limit buffer_size, enough)) in
          elim (Bool-cases (available next == 0)) [
            | inl t ↦ (
              next,
              rw (r, ◌>>=◌, t) refl,
              record {
                fresh = buffer;
                all_taken = same ∙ taken-read buffer_size h;
                all_sent = now ∙ ap (λ (l : List ℕ). l ++ buffer) (sent-read buffer_size h);
                drained = ground (arith, t);
              },
            )
            | inr t ↦
                let some' = read_some buffer_size next room (pos_of (available next) t) in
                let (last, s, rest) =
                  copy_lem rounds passes next
                    (omega (arith, some', to_come-read buffer_size next, traffic, few)) enough in
                (
                  last,
                  rw (r, ◌>>=◌, t) s,
                  record {
                    fresh = buffer ++ rest.fresh;
                    all_taken =
                        joined (taken h) buffer rest.fresh rest.all_taken
                          (same ∙ taken-read buffer_size h);
                    all_sent =
                        joined (sent h) buffer rest.fresh rest.all_sent
                          (now ∙ ap (λ (l : List ℕ). l ++ buffer) (sent-read buffer_size h));
                    drained = rest.drained;
                  },
                )
          ]

      -- With more rounds than bytes are to come, and more passes than the port can need for the bytes of
      -- the buffer, transferData returns: what it has read it has sent, in the same order and nothing
      -- else, no byte waits for it then, and the LED is as before.
      pub transfer_data-Echoes :
          (rounds passes : ℕ) (b : Board p)
          → to_come b.hw < rounds
          → buffer_size * suc limit ≤ passes
          → (b' : Board p) × (transfer_data p buffer_size rounds passes b ≡ some b')
            × (b'.led ≡ b.led)
            × Echoes b.hw b'.hw
      unfolding transfer_data pin_toggle
      transfer_data-Echoes rounds passes b few enough =
          let traffic = to_come-read buffer_size b.hw in
          let (h, r, echo) = copy_lem rounds passes b.hw (omega (arith, traffic, few)) enough in
          (record b { hw = h; led = not (not b.led) }, rw (r, ◌>>=◌) refl, not-not b.led, echo)
