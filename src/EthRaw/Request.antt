-- ===== src/EthRaw/Request.antt =====
-- Data frames in examples/lpc43xx_default/eth_raw/main.c, those that the host's script
-- examples/lpc43xx_default/eth_raw/eth_raw.py sends and those that it does not.
use mathlib.Core.Path.{fun_ext}
use halm_examples.Base.{
  ℕ, zero, suc, ◌+◌, ◌-◌, ◌*◌, ◌/◌, ◌%◌, ◌^◌, ◌≤◌, ◌<◌, ◌≡◌, refl, ap, ap₂, ◌∙◌, true, false, ◌&&◌,
  List, [], ◌∷◌, ◌++◌, arith, length, get_or, leb, ltb, add32,
}
use halm_examples.EthRaw.{
  Interface, done, overrun, Board, chunk_frame, spliced, store_chunk, handle_buf, handle_eth_frame,
  slice, length-slice, arena_size, ether_type, opcode_buf, packet_size, chunk_size, buffer_size,
  from_be16, from_be32, be16, be32,
}

-- `make_data_packet` of eth_raw.py
unfoldable pub make_data_packet : (src dst : ℕ → ℕ) → List ℕ → ℕ → List ℕ
make_data_packet src dst buffer offset =
    slice dst 0 6
    ++ slice src 0 6
    ++ be16 ether_type
    ++ be16 opcode_buf
    ++ be32 offset
    ++ be32 (length buffer)
    ++ buffer

-- The bytes of a list as the driver leaves them in the buffer.
abbrev pub received : List ℕ → ℕ → ℕ
received l i = get_or l i 0

slice-spliced :
    (a n k m : ℕ) (b f : ℕ → ℕ) → k + m ≤ n → slice (spliced a n b f) (a + k) m ≡ slice b k m
unfolding slice spliced
slice-spliced a n k zero b f h = refl
slice-spliced a n k (suc m) b f h =
    let e : a + k + 1 ≡ a + (k + 1) = omega arith in
    let t : (leb a (a + k) && ltb (a + k) (a + n)) ≡ true = ground arith in
    let i : a + k - a ≡ k = omega arith in
    rw (e, t, i) (ap (λ l. b k ∷ l) (slice-spliced a n (k + 1) m b f (omega arith)))

slice-spliced_whole : (a n : ℕ) (b f : ℕ → ℕ) → slice (spliced a n b f) a n ≡ slice b 0 n
slice-spliced_whole a n b f =
    let e : a + 0 ≡ a = omega arith in
    let h : slice (spliced a n b f) (a + 0) n ≡ slice b 0 n =
      slice-spliced a n 0 n b f (omega arith) in
    rw e at h

slice-spliced_before :
    (a n k m : ℕ) (b f : ℕ → ℕ) → k + m ≤ a → slice (spliced a n b f) k m ≡ slice f k m
unfolding slice spliced
slice-spliced_before a n k zero b f h = refl
slice-spliced_before a n k (suc m) b f h =
    let t : (leb a k && ltb k (a + n)) ≡ false = ground arith in
    rw t (ap (λ l. f k ∷ l) (slice-spliced_before a n (k + 1) m b f (omega arith)))

spliced_after : (a n j : ℕ) (b f : ℕ → ℕ) → spliced a n b f (a + n + j) ≡ f (a + n + j)
unfolding spliced
spliced_after a n j b f =
    let t : (leb a (a + n + j) && ltb (a + n + j) (a + n)) ≡ false = ground arith in rw t

slice-received_cons :
    (x : ℕ) (l : List ℕ) (k n : ℕ) → slice (received (x ∷ l)) (k + 1) n ≡ slice (received l) k n
unfolding slice
slice-received_cons x l k zero = refl
slice-received_cons x l k (suc n) =
    let e : k + 1 ≡ suc k = omega arith in
    ap₂ (λ y r. y ∷ r) (rw e refl) (slice-received_cons x l (k + 1) n)

slice-received : (l : List ℕ) → slice (received l) 0 (length l) ≡ l
unfolding slice
slice-received [] = refl
slice-received (x ∷ l) = ap (λ r. x ∷ r) (slice-received_cons x l 0 (length l) ∙ slice-received l)

-- The payload starts at `packet_size`.
received-make_data_packet :
    (src dst : ℕ → ℕ) (buffer : List ℕ) (offset i : ℕ)
    → received (make_data_packet src dst buffer offset) (packet_size + i) ≡ received buffer i
unfolding make_data_packet slice
received-make_data_packet src dst buffer offset i =
    let e : packet_size + i
        ≡ suc (
            suc (
              suc (
                suc (
                  suc (
                    suc (
                      suc (
                        suc (
                          suc (
                            suc (
                              suc (
                                suc (
                                  suc (
                                    suc (
                                      suc (
                                        suc (
                                          suc (
                                            suc (
                                              suc
                                                (suc (suc (suc (suc (suc i))))))))))))))))))))))) =
      omega arith in
    rw e

length-make_data_packet :
    (src dst : ℕ → ℕ) (buffer : List ℕ) (offset : ℕ)
    → length (make_data_packet src dst buffer offset) ≡ packet_size + length buffer
unfolding make_data_packet slice
length-make_data_packet src dst buffer offset = omega arith

module _ (e : Interface) where
  handle_buf_lem :
      (frame : ℕ → ℕ) (count offset n : ℕ) (s : Board e)
      → from_be32 frame 16 ≡ offset
      → from_be32 frame 20 ≡ n
      → packet_size + n ≤ count
      → count ≤ buffer_size
      → offset + n ≤ arena_size
      → handle_buf e frame count s
        ≡ done (record s { arena = spliced offset n (λ i. frame (packet_size + i)) s.arena })
  unfolding handle_buf store_chunk
  handle_buf_lem frame count offset n s o l long fits inside =
      let t : ltb count (add32 packet_size n) ≡ false = ground arith in
      let u : ltb arena_size (add32 offset n) ≡ false = ground arith in
      let v : (leb (packet_size + n) buffer_size && leb (offset + n) arena_size) ≡ true =
        ground arith in
      rw (o, l, t, u, v) refl

  -- A packet that the host's script makes for a place inside the arena, and that fits into the
  -- buffer, is stored there; the rest of the arena and the interface are left alone.
  pub handle_eth_frame-make_data_packet :
      (fuel : ℕ) (src dst : ℕ → ℕ) (buffer : List ℕ) (offset : ℕ) (s : Board e)
      → packet_size + length buffer ≤ buffer_size
      → offset + length buffer ≤ arena_size
      → let packet = make_data_packet src dst buffer offset in
        (s' : Board e) × (handle_eth_frame e fuel (received packet) (length packet) s ≡ done s')
        × (slice s'.arena offset (length buffer) ≡ buffer)
        × (slice s'.arena 0 offset ≡ slice s.arena 0 offset)
        × ((j : ℕ) → s'.arena (offset + length buffer + j) ≡ s.arena (offset + length buffer + j))
        × (s'.net ≡ s.net)
  unfolding handle_eth_frame make_data_packet slice
  handle_eth_frame-make_data_packet fuel src dst buffer offset s fits inside =
      let packet = make_data_packet src dst buffer offset in
      let n = length buffer in
      let count = length-make_data_packet src dst buffer offset in
      let o : from_be32 (received packet) 16 ≡ offset = omega arith in
      let l : from_be32 (received packet) 20 ≡ n = omega arith in
      let t : ltb (length packet) packet_size ≡ false = ground arith in
      let content = fun_ext (received-make_data_packet src dst buffer offset) in
      (
        record s { arena = spliced offset n (received buffer) s.arena },
        rw (← content) (
            rw t (
              handle_buf_lem (received packet) (length packet) offset n s o l (omega arith)
                (omega arith) inside)),
        slice-spliced_whole offset n (received buffer) s.arena ∙ slice-received buffer,
        slice-spliced_before offset n 0 offset (received buffer) s.arena (omega arith),
        λ j. spliced_after offset n j (received buffer) s.arena,
        refl,
      )

  -- The sums of the two checks are those of 32 bits. A frame with an offset and a length whose sum
  -- wraps to a place inside the arena, and a length that passes the first check in the same way or
  -- honestly, is copied to or from memory outside the arena or the buffer.
  pub handle_eth_frame_overrun :
      (fuel : ℕ) (frame : ℕ → ℕ) (count : ℕ) (s : Board e)
      → from_be16 frame 12 ≡ ether_type
      → from_be16 frame 14 ≡ opcode_buf
      → packet_size ≤ count
      → add32 packet_size (from_be32 frame 20) ≤ count
      → add32 (from_be32 frame 16) (from_be32 frame 20) ≤ arena_size
      → arena_size < from_be32 frame 16 + from_be32 frame 20
      → handle_eth_frame e fuel frame count s ≡ overrun
  unfolding handle_eth_frame handle_buf store_chunk
  handle_eth_frame_overrun fuel frame count s ether buf long first second outside =
      let offset = from_be32 frame 16 in
      let n = from_be32 frame 20 in
      let a : ltb count packet_size ≡ false = ground arith in
      let t : ltb count (add32 packet_size n) ≡ false = ground arith in
      let u : ltb arena_size (add32 offset n) ≡ false = ground arith in
      let v : (leb (packet_size + n) buffer_size && leb (offset + n) arena_size) ≡ false =
        ground arith in
      rw (ether, a, buf, t, u, v) refl

  -- What `handleEthFrame` reads in a chunk that `sendMemChunk` has put together: its length is read
  -- the other way round.
  record Reads (frame : List ℕ) (n : ℕ) : Type 0 where
    ether : from_be16 (received frame) 12 ≡ ether_type
    opcode : from_be16 (received frame) 14 ≡ opcode_buf
    size :
        from_be32 (received frame) 20
        ≡ n % 2 ^ 8 * 2 ^ 24 + n / 2 ^ 8 % 2 ^ 8 * 2 ^ 16 + n / 2 ^ 16 % 2 ^ 16
    count : length frame ≡ packet_size + n

  chunk_frame-Reads :
      (mac : ℕ → ℕ) (offset n : ℕ) (s : Board e)
      → n < 2 ^ 16
      → Reads (chunk_frame e mac offset n s) n
  unfolding chunk_frame slice
  chunk_frame-Reads mac offset n s small = record {
    ether = refl;
    opcode = refl;
    size = omega arith;
    count = omega (arith, length-slice s.arena offset n);
  }

  -- A chunk that `sendMemChunk` has put together is ignored by `handleEthFrame`, on any board: it
  -- reads a length that the frame does not have.
  pub handle_eth_frame-chunk_frame :
      (fuel : ℕ) (mac : ℕ → ℕ) (offset : ℕ) (s s' : Board e)
      → let frame = chunk_frame e mac offset chunk_size s in
        handle_eth_frame e fuel (received frame) (length frame) s' ≡ done s'
  unfolding handle_eth_frame handle_buf
  handle_eth_frame-chunk_frame fuel mac offset s s' =
      let h = chunk_frame-Reads mac offset chunk_size s (omega arith) in
      rw (h.ether, h.opcode, h.size, h.count) refl
