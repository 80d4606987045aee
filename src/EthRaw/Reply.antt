-- ===== src/EthRaw/Reply.antt =====
-- The answer to a request in examples/lpc43xx_default/eth_raw/main.c.
use mathlib.Core.List.{append-nil, append_assoc}
use halm_examples.Base.{
  ℕ, zero, suc, ◌+◌, ◌*◌, ◌≤◌, ◌<◌, ◌≡◌, refl, sym, ap, ap₂, ◌∙◌, true, false, List, [], ◌∷◌, ◌++◌,
  arith, take, drop, ◌==◌, leb, ltb, ◌&&◌, Bool-cases, inl, inr,
}
use halm_examples.EthRaw.{
  Interface, Outcome, done, Board, chunk_frame, send, send_mem_chunk, send_arena, slice, slice-add,
  handle_eth_frame, arena_size, chunk_size, ether_type, opcode_req, packet_size, buffer_size,
  from_be16,
}

-- What a receiver gets that joins the payloads.
abbrev pub payloads : List (List ℕ) → List ℕ
payloads [] = []
payloads (x ∷ xs) = drop packet_size x ++ payloads xs

-- Every frame goes to this address.
abbrev pub AllTo : List ℕ → List (List ℕ) → Type 0
AllTo mac [] = Unit
AllTo mac (x ∷ xs) = (take 6 x ≡ mac) × AllTo mac xs

pub slice_zero : (f : ℕ → ℕ) (a : ℕ) → slice f a 0 ≡ []
unfolding slice
slice_zero f a = refl

module _ (e : Interface) where
  open e use {Net, write, address}

  -- What the program relies on in the interface: a frame is accepted whole, or refused with 0; it
  -- is refused only while the interface is busy, and a busy interface gets on with its work.
  pub record IsInterface : Type 0 where
    pub sent : Net → List (List ℕ)
    pub busy : Net → ℕ
    pub limit : ℕ
    pub busy_le : (n : Net) → busy n ≤ limit
    pub refused :
        (frame : List ℕ) (n : Net)
        → 0 < busy n
        → ((write frame n).0 ≡ 0)
          × (sent (write frame n).1 ≡ sent n)
          × (busy (write frame n).1 < busy n)
    pub accepted :
        (frame : List ℕ) (n : Net)
        → busy n ≡ 0
        → (0 < (write frame n).0) × (sent (write frame n).1 ≡ sent n ++ (frame ∷ []))
    pub address_kept : (frame : List ℕ) (n : Net) → address (write frame n).1 ≡ address n

  module _ (d : IsInterface) where
    open d use {sent, busy, limit, busy_le, refused, accepted, address_kept}

    -- The frames have been sent, and nothing else has changed.
    pub record HasSent (frames : List (List ℕ)) (s : Board e) (r : Outcome (Board e)) : Type 0 where
      pub next : Board e
      pub returns : r ≡ done next
      pub in_order : sent next.net ≡ sent s.net ++ frames
      pub same_address : address next.net ≡ address s.net
      pub same_arena : next.arena ≡ s.arena

    send_lem :
        (fuel : ℕ) (frame : List ℕ) (n : Net)
        → busy n < fuel
        → (n' : Net) × (send e fuel frame n ≡ done n')
          × (sent n' ≡ sent n ++ (frame ∷ []))
          × (address n' ≡ address n)
    unfolding send
    send_lem zero frame n h = absurd (omega arith)
    send_lem (suc fuel) frame n h = elim (Bool-cases (busy n == 0)) [
      | inl idle ↦
          let (pos, now) = accepted frame n (ground arith) in
          let t : ((write frame n).0 == 0) ≡ false = ground arith in
          ((write frame n).1, rw (t, send) refl, now, address_kept frame n)
      | inr more ↦
          let (none_sent, same, less) = refused frame n (ground arith) in
          let t : ((write frame n).0 == 0) ≡ true = ground arith in
          let (n', r, now, kept) = send_lem fuel frame (write frame n).1 (omega arith) in
          (n', rw (t, send) r, rw same at now, rw (address_kept frame n) at kept)
    ]

    take-chunk_frame :
        (mac : ℕ → ℕ) (o n : ℕ) (s : Board e) → take 6 (chunk_frame e mac o n s) ≡ slice mac 0 6
    unfolding chunk_frame slice
    take-chunk_frame mac o n s = refl

    drop-chunk_frame :
        (mac : ℕ → ℕ) (o n : ℕ) (s : Board e)
        → drop packet_size (chunk_frame e mac o n s) ≡ slice s.arena o n
    unfolding chunk_frame slice
    drop-chunk_frame mac o n s = refl

    send_mem_chunk_lem :
        (fuel : ℕ) (mac : ℕ → ℕ) (o n : ℕ) (s : Board e)
        → limit < fuel
        → packet_size + n ≤ buffer_size
        → o + n ≤ arena_size
        → HasSent (chunk_frame e mac o n s ∷ []) s (send_mem_chunk e fuel mac o n s)
    unfolding send_mem_chunk
    send_mem_chunk_lem fuel mac o n s enough fits inside =
        let (n', r, now, kept) =
          send_lem fuel (chunk_frame e mac o n s) s.net (omega (arith, busy_le s.net)) in
        let t : (leb (packet_size + n) buffer_size && leb (o + n) arena_size) ≡ true =
          ground arith in
        record {
          next = record s { net = n' };
          returns = rw (t, r) refl;
          in_order = now;
          same_address = kept;
          same_arena = refl;
        }

    -- The frames sent in some rounds.
    pub record Sends (rounds : ℕ) (mac : ℕ → ℕ) (o : ℕ) (s : Board e) (r : Outcome (Board e))
        : Type 0 where
      pub frames : List (List ℕ)
      pub has_sent : HasSent frames s r
      pub to_mac : AllTo (slice mac 0 6) frames
      pub content : payloads frames ≡ slice s.arena o (rounds * chunk_size)

    -- One round, and the rounds after it.
    Sends-send_arena :
        (rounds fuel : ℕ) (mac : ℕ → ℕ) (o : ℕ) (s : Board e)
        → (head : HasSent
            (chunk_frame e mac o chunk_size s ∷ [])
            s
            (send_mem_chunk e fuel mac o chunk_size s))
        → Sends rounds mac
            (o + chunk_size)
            head.next
            (send_arena e rounds fuel mac (o + chunk_size) head.next)
        → Sends (suc rounds) mac o s (send_arena e (suc rounds) fuel mac o s)
    unfolding send_arena
    Sends-send_arena rounds fuel mac o s head rest =
        let later = rest.has_sent in
        let sum : suc rounds * chunk_size ≡ chunk_size + rounds * chunk_size = omega arith in
        record {
          frames = chunk_frame e mac o chunk_size s ∷ rest.frames;
          has_sent = record {
            next = later.next;
            returns = rw (head.returns, send_arena) later.returns;
            in_order =
                later.in_order
                ∙ ap (λ (l : List (List ℕ)). l ++ rest.frames) head.in_order
                ∙ append_assoc (sent s.net) (chunk_frame e mac o chunk_size s ∷ []) rest.frames;
            same_address = later.same_address ∙ head.same_address;
            same_arena = later.same_arena ∙ head.same_arena;
          };
          to_mac = (take-chunk_frame mac o chunk_size s, rest.to_mac);
          content =
              rw (sum, slice-add s.arena o chunk_size (rounds * chunk_size))
                (ap₂ (λ (x y : List ℕ). x ++ y) (drop-chunk_frame mac o chunk_size s)
                  (rest.content
                    ∙ ap (λ f. slice f (o + chunk_size) (rounds * chunk_size)) head.same_arena));
        }

    send_arena_lem :
        (rounds fuel : ℕ) (mac : ℕ → ℕ) (o : ℕ) (s : Board e)
        → limit < fuel
        → o + rounds * chunk_size ≤ arena_size
        → Sends rounds mac o s (send_arena e rounds fuel mac o s)
    unfolding send_arena
    send_arena_lem zero fuel mac o s enough inside = record {
      frames = [];
      has_sent = record {
        next = s;
        returns = refl;
        in_order = sym (append-nil (sent s.net));
        same_address = refl;
        same_arena = refl;
      };
      to_mac = tt;
      content = sym (slice_zero s.arena o);
    }
    send_arena_lem (suc rounds) fuel mac o s enough inside =
        let head = send_mem_chunk_lem fuel mac o chunk_size s enough (omega arith) (omega arith) in
        Sends-send_arena rounds fuel mac o s head
          (send_arena_lem rounds fuel mac (o + chunk_size) head.next enough (omega arith))

    -- A request is answered, whatever else the frame holds: with more fuel than the interface can be
    -- busy for, the handler returns, the arena is unchanged, and the frames sent go to the sender of
    -- the request and hold in their payloads, one after the other, all of the arena.
    pub handle_eth_frame-Sends :
        (fuel : ℕ) (frame : ℕ → ℕ) (count : ℕ) (s : Board e)
        → limit < fuel
        → from_be16 frame 12 ≡ ether_type
        → from_be16 frame 14 ≡ opcode_req
        → packet_size ≤ count
        → Sends 16 (λ i. frame (6 + i)) 0 s (handle_eth_frame e fuel frame count s)
    unfolding handle_eth_frame
    handle_eth_frame-Sends fuel frame count s enough ether req long =
        let t : ltb count packet_size ≡ false = ground arith in
        rw (ether, t, req) (send_arena_lem 16 fuel (λ i. frame (6 + i)) 0 s enough (omega arith))
