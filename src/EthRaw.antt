-- ===== src/EthRaw.antt =====
-- The program that keeps a memory for a host on the network:
-- examples/lpc43xx_default/eth_raw/main.c. The start of the PHY is in EthRaw.Phy.
mod Bytes
pub mod Phy
pub mod Reply
pub mod Request
pub mod Session
mod Tests
unfoldable pub use Bytes.*
use halm_examples.Base.{
  ℕ, zero, suc, ◌+◌, ◌-◌, ◌*◌, ◌/◌, ◌%◌, ◌^◌, Bool, true, false, ◌&&◌, Option, none, some, List, [],
  ◌∷◌, ◌++◌, ◌==◌, leb, ltb, if◌then◌else◌, add32, length,
}

abbrev pub ether_type : ℕ
ether_type = 0x9000

abbrev pub opcode_buf : ℕ
opcode_buf = 1

abbrev pub opcode_req : ℕ
opcode_req = 2

abbrev pub arena_size : ℕ
arena_size = 16384

abbrev pub chunk_size : ℕ
chunk_size = 1024

-- `sizeof(struct TestPacket)`; the fields are at 0, 6, 12, 14, 16, 20 and the payload at 24.
abbrev pub packet_size : ℕ
packet_size = 24

-- `BOARD_ETH_BUFFER`
abbrev pub buffer_size : ℕ
buffer_size = 1056

-- The network interface: `ifWrite` and the address that it has. A frame is given by its bytes.
pub record Interface : Type 1 where
  pub Net : Type 0
  pub write : List ℕ → Net → ℕ × Net
  pub address : Net → ℕ

-- How a function ends: it returns, or touches memory outside of an object, or still waits for the
-- interface when the fuel is used up.
pub data Outcome {ℓ} (A : Type ℓ) : Type ℓ where
  done : A → Outcome A
  overrun waiting : Outcome A

-- A function on the bytes from `a` on, where `n` of them are replaced.
unfoldable pub spliced : (a n : ℕ) → (bytes : ℕ → ℕ) → (ℕ → ℕ) → ℕ → ℕ
spliced a n bytes f i = if leb a i && ltb i (a + n) then bytes (i - a) else f i

module _ (e : Interface) where
  open e use {Net, write, address}

  -- The state: the arena and the interface.
  pub record Board : Type 0 where
    pub arena : ℕ → ℕ
    pub net : Net

  -- The frame that `sendMemChunk` puts together. The length is stored as the core has it, the
  -- lowest byte first.
  unfoldable pub chunk_frame : (mac : ℕ → ℕ) (offset length : ℕ) → Board → List ℕ
  chunk_frame mac offset length s =
      slice mac 0 6
      ++ low_bytes 6 (address s.net)
      ++ be16 ether_type
      ++ be16 opcode_buf
      ++ be32 offset
      ++ low_bytes 4 length
      ++ slice s.arena offset length

  -- `while (ifWrite(…) == 0);`
  unfoldable pub send : (fuel : ℕ) → List ℕ → Net → Outcome Net
  send zero frame n = waiting
  send (suc fuel) frame n =
      let (count, n') = write frame n in
      elim (count == 0) [ true ↦ send fuel frame n' | false ↦ done n' ]

  unfoldable pub send_mem_chunk :
      (fuel : ℕ) → (mac : ℕ → ℕ) (offset length : ℕ) → Board → Outcome Board
  send_mem_chunk fuel mac offset length s =
      if leb (packet_size + length) buffer_size && leb (offset + length) arena_size
      then elim (send fuel (chunk_frame mac offset length s) s.net) [
        | done n ↦ done (record s { net = n })
        | overrun ↦ overrun
        | waiting ↦ waiting
      ]
      else overrun

  -- The loop over the arena, with `rounds` chunks left.
  unfoldable pub send_arena : (rounds fuel : ℕ) → (mac : ℕ → ℕ) (offset : ℕ) → Board → Outcome Board
  send_arena zero fuel mac offset s = done s
  send_arena (suc rounds) fuel mac offset s = elim (send_mem_chunk fuel mac offset chunk_size s) [
    | done s' ↦ send_arena rounds fuel mac (offset + chunk_size) s'
    | overrun ↦ overrun
    | waiting ↦ waiting
  ]

  -- `memcpy` from the payload of the frame into the arena.
  unfoldable pub store_chunk : (frame : ℕ → ℕ) (offset length : ℕ) → Board → Outcome Board
  store_chunk frame offset length s =
      if leb (packet_size + length) buffer_size && leb (offset + length) arena_size
      then done (record s { arena = spliced offset length (λ i. frame (packet_size + i)) s.arena })
      else overrun

  -- OPCODE_BUF; the sums are those of `size_t`, 32 bits wide.
  unfoldable pub handle_buf : (frame : ℕ → ℕ) (count : ℕ) → Board → Outcome Board
  handle_buf frame count s =
      let offset = from_be32 frame 16 in
      let length = from_be32 frame 20 in
      if ltb count (add32 packet_size length)
      then done s
      else if ltb arena_size (add32 offset length)
      then done s
      else store_chunk frame offset length s

  -- The frame is the buffer that main passes, of which `count` bytes have been received.
  unfoldable pub handle_eth_frame : (fuel : ℕ) (frame : ℕ → ℕ) (count : ℕ) → Board → Outcome Board
  handle_eth_frame fuel frame count s =
      if from_be16 frame 12 == ether_type
      then if ltb count packet_size
        then done s
        else if from_be16 frame 14 == opcode_buf
        then handle_buf frame count s
        else if from_be16 frame 14 == opcode_req
        then send_arena (arena_size / chunk_size) fuel (λ i. frame (6 + i)) 0 s
        else done s
      else done s

  -- The loop of main on `ifRead`, until it gives no frame: the buffer after each call, and the bytes
  -- that have been received.
  unfoldable pub serve_frames : (fuel : ℕ) (frames : List ((ℕ → ℕ) × ℕ)) → Board → Outcome Board
  serve_frames fuel [] s = done s
  serve_frames fuel (frame ∷ more) s = elim (handle_eth_frame fuel frame.0 frame.1 s) [
    | done s' ↦ serve_frames fuel more s'
    | overrun ↦ overrun
    | waiting ↦ waiting
  ]
