-- ===== src/EthRaw/Session.antt =====
-- A run of the host's script examples/lpc43xx_default/eth_raw/eth_raw.py against the program: a buffer
-- is sent in chunks, then requested.
use mathlib.Core.List.{append-nil, append_assoc}
use halm_examples.Base.{
  ℕ, zero, suc, ◌+◌, ◌*◌, ◌≤◌, ◌<◌, ◌≡◌, refl, sym, ap, ap₂, ◌∙◌, List, [], ◌∷◌, ◌++◌, length,
  arith,
}
use halm_examples.EthRaw.{
  Interface, Outcome, done, Board, serve_frames, handle_eth_frame, slice, slice-add, length-slice,
  arena_size, chunk_size, packet_size, ether_type, opcode_req, be16, be32, from_be16,
}
use halm_examples.EthRaw.Reply.{IsInterface, AllTo, payloads, slice_zero, handle_eth_frame-Sends}
use halm_examples.EthRaw.Request.{make_data_packet, received, handle_eth_frame-make_data_packet}

-- `make_data_request` of eth_raw.py
unfoldable pub make_data_request : (src dst : ℕ → ℕ) → List ℕ
make_data_request src dst =
    slice dst 0 6 ++ slice src 0 6 ++ be16 ether_type ++ be16 opcode_req ++ be32 0 ++ be32 0

-- A packet as main gets it.
abbrev arriving : List ℕ → (ℕ → ℕ) × ℕ
arriving packet = (received packet, length packet)

-- The packets of the loop in `main` of eth_raw.py, from `offset` on.
unfoldable pub upload : (src dst buffer : ℕ → ℕ) (rounds offset : ℕ) → List ((ℕ → ℕ) × ℕ)
upload src dst buffer zero offset = []
upload src dst buffer (suc rounds) offset =
    arriving (make_data_packet src dst (slice buffer offset chunk_size) offset)
    ∷ upload src dst buffer rounds (offset + chunk_size)

-- All that the script sends.
unfoldable pub script : (src dst buffer : ℕ → ℕ) → List ((ℕ → ℕ) × ℕ)
script src dst buffer = upload src dst buffer 16 0 ++ (arriving (make_data_request src dst) ∷ [])

request_lem :
    (src dst : ℕ → ℕ)
    → let packet = make_data_request src dst in
      (from_be16 (received packet) 12 ≡ ether_type)
      × (from_be16 (received packet) 14 ≡ opcode_req)
      × (packet_size ≤ length packet)
unfolding make_data_request slice
request_lem src dst = (refl, refl, omega arith)

mac_of_request :
    (src dst : ℕ → ℕ)
    → slice (λ i. received (make_data_request src dst) (6 + i)) 0 6 ≡ slice src 0 6
unfolding make_data_request slice
mac_of_request src dst = refl

module _ (e : Interface) (fuel : ℕ) (src dst buffer : ℕ → ℕ) where
  serve-cons :
      (frame : (ℕ → ℕ) × ℕ) (more : List ((ℕ → ℕ) × ℕ)) (s s' : Board e)
      → handle_eth_frame e fuel frame.0 frame.1 s ≡ done s'
      → serve_frames e fuel (frame ∷ more) s ≡ serve_frames e fuel more s'
  unfolding serve_frames
  serve-cons frame more s s' r = rw (r, serve_frames) refl

  -- After these packets, whatever comes next: the arena holds what it held up to `offset`, and the
  -- buffer from there on.
  record HasStored (rounds offset : ℕ) (s : Board e) : Type 0 where
    next : Board e
    goes_on :
        (more : List ((ℕ → ℕ) × ℕ))
        → serve_frames e fuel (upload src dst buffer rounds offset ++ more) s
          ≡ serve_frames e fuel more next
    content :
        slice next.arena 0 (offset + rounds * chunk_size)
        ≡ slice s.arena 0 offset ++ slice buffer offset (rounds * chunk_size)
    same_net : next.net ≡ s.net

  -- One packet has been stored, and then the others.
  chunk-HasStored :
      (rounds offset : ℕ) (s s' : Board e)
      → (let packet = make_data_packet src dst (slice buffer offset chunk_size) offset in
          handle_eth_frame e fuel (received packet) (length packet) s ≡ done s')
      → slice s'.arena offset chunk_size ≡ slice buffer offset chunk_size
      → slice s'.arena 0 offset ≡ slice s.arena 0 offset
      → s'.net ≡ s.net
      → HasStored rounds (offset + chunk_size) s'
      → HasStored (suc rounds) offset s
  unfolding upload
  chunk-HasStored rounds offset s s' r stored before net rest =
      let n = rounds * chunk_size in
      let here = slice buffer offset chunk_size in
      let later = slice buffer (offset + chunk_size) n in
      let sum : offset + suc rounds * chunk_size ≡ offset + chunk_size + n = omega arith in
      let size : suc rounds * chunk_size ≡ chunk_size + n = omega arith in
      let start : 0 + offset ≡ offset = omega arith in
      let split : slice s'.arena 0 (offset + chunk_size) ≡ slice s.arena 0 offset ++ here =
        slice-add s'.arena 0 offset chunk_size
        ∙ ap₂ (λ (x y : List ℕ). x ++ y) before
            (ap (λ k. slice s'.arena k chunk_size) start ∙ stored) in
      record {
        next = rest.next;
        goes_on = λ more.
            serve-cons (arriving (make_data_packet src dst here offset))
              (upload src dst buffer rounds (offset + chunk_size) ++ more) s s' r
            ∙ rest.goes_on more;
        content =
            ap (slice rest.next.arena 0) sum
            ∙ rest.content
            ∙ ap (λ (l : List ℕ). l ++ later) split
            ∙ append_assoc (slice s.arena 0 offset) here later
            ∙ ap (λ (l : List ℕ). slice s.arena 0 offset ++ l)
                (sym (slice-add buffer offset chunk_size n) ∙ ap (slice buffer offset) (sym size));
        same_net = rest.same_net ∙ net;
      }

  upload_lem :
      (rounds offset : ℕ) (s : Board e)
      → offset + rounds * chunk_size ≤ arena_size
      → HasStored rounds offset s
  unfolding upload slice
  upload_lem zero offset s inside =
      let none_yet : offset + 0 * chunk_size ≡ offset = omega arith in
      record {
        next = s;
        goes_on = λ more. refl;
        content = ap (slice s.arena 0) none_yet ∙ sym (append-nil (slice s.arena 0 offset));
        same_net = refl;
      }
  upload_lem (suc rounds) offset s inside =
      let size = length-slice buffer offset chunk_size in
      let (s', r, stored, before, after, net) =
        handle_eth_frame-make_data_packet e fuel src dst (slice buffer offset chunk_size) offset s
          (omega (arith, size)) (omega (arith, size, inside)) in
      chunk-HasStored rounds offset s s' r (ap (slice s'.arena offset) (sym size) ∙ stored) before
        net (upload_lem rounds (offset + chunk_size) s' (omega (arith, inside)))

  module _ (d : IsInterface e) where
    -- The frames sent in answer: to the sender, and with all of the buffer as their payloads.
    pub record ReturnsBuffer (s : Board e) (r : Outcome (Board e)) : Type 0 where
      pub next : Board e
      pub frames : List (List ℕ)
      pub returns : r ≡ done next
      pub in_order : d.sent next.net ≡ d.sent s.net ++ frames
      pub to_host : AllTo (slice src 0 6) frames
      pub content : payloads frames ≡ slice buffer 0 arena_size

    -- What the script sends, when main gets it in this order with nothing in between, comes back: with
    -- more fuel than the interface can be busy for, the loop on ifRead returns, and the payloads of
    -- the frames that are sent, all to the host, are the buffer, whatever the arena held before.
    pub serve_frames-script :
        (s : Board e)
        → d.limit < fuel
        → ReturnsBuffer s (serve_frames e fuel (script src dst buffer) s)
    unfolding script serve_frames
    serve_frames-script s enough =
        let u = upload_lem 16 0 s (omega arith) in
        let packet = make_data_request src dst in
        let (ether, opcode, long) = request_lem src dst in
        let a =
          handle_eth_frame-Sends e d fuel (received packet) (length packet) u.next enough ether
            opcode long in
        let sent = a.has_sent in
        record {
          next = sent.next;
          frames = a.frames;
          returns =
              u.goes_on (arriving packet ∷ [])
              ∙ serve-cons (arriving packet) [] u.next sent.next sent.returns;
          in_order = sent.in_order ∙ ap (λ n. d.sent n ++ a.frames) u.same_net;
          to_host = rw (mac_of_request src dst) at a.to_mac;
          content =
              a.content
              ∙ u.content
              ∙ ap (λ (l : List ℕ). l ++ slice buffer 0 arena_size) (slice_zero s.arena 0);
        }
