-- ===== src/EthRaw/Tests.antt =====
-- The program of eth_raw/main.c at concrete inputs.
use halm_examples.Base.{
  ℕ, ◌+◌, ◌%◌, ◌≤◌, ◌<◌, ◌≡◌, zero, suc, ◌↔◌, refl, ltb, if◌then◌else◌, Bool, true, false, List, [],
  ◌∷◌, ◌++◌, arith, length,
}
use halm_examples.EthRaw.{
  Interface, done, overrun, Board, handle_eth_frame, serve_frames, chunk_frame, slice,
}
use halm_examples.EthRaw.Phy.{
  Mdio, IsUp, phy_init, phy_reset, phy_read_reg, phy_write_reg, negotiate, wait, phy_init_iff,
}
use halm_examples.EthRaw.Reply.{IsInterface, Sends, handle_eth_frame-Sends}
use halm_examples.EthRaw.Request.{
  make_data_packet, received, handle_eth_frame-make_data_packet, handle_eth_frame_overrun,
  handle_eth_frame-chunk_frame,
}
use halm_examples.EthRaw.Session.{ReturnsBuffer, script, serve_frames-script}

-- An interface that refuses every second frame.
record Line : Type 0 where
  log : List (List ℕ)
  full : Bool

abbrev line_write : List ℕ → Line → ℕ × Line
line_write frame n = elim n.full [
  | true ↦ (0, record n { full = false })
  | false ↦ (length frame + 1, record { log = n.log ++ (frame ∷ []); full = true })
]

abbrev line : Interface
line = record { Net = Line; write = line_write; address = λ n. 0x5E45A26C301E }

abbrev busy_of : Bool → ℕ
busy_of true = 1
busy_of false = 0

line_refused :
    (frame : List ℕ) (log : List (List ℕ)) (b : Bool)
    → 0 < busy_of b
    → ((line_write frame (record { log = log; full = b })).0 ≡ 0)
      × ((line_write frame (record { log = log; full = b })).1.log ≡ log)
      × (busy_of ((line_write frame (record { log = log; full = b })).1.full) < busy_of b)
line_refused frame log true h = (refl, refl, omega arith)
line_refused frame log false h = absurd (omega arith)

line_accepted :
    (frame : List ℕ) (log : List (List ℕ)) (b : Bool)
    → busy_of b ≡ 0
    → (0 < (line_write frame (record { log = log; full = b })).0)
      × ((line_write frame (record { log = log; full = b })).1.log ≡ log ++ (frame ∷ []))
line_accepted frame log true h = absurd (omega arith)
line_accepted frame log false h = (omega arith, refl)

busy_of_le : (b : Bool) → busy_of b ≤ 1
busy_of_le true = omega arith
busy_of_le false = omega arith

abbrev line_laws : IsInterface line
line_laws = record {
  sent = λ n. n.log;
  busy = λ n. busy_of n.full;
  limit = 1;
  busy_le = λ n. busy_of_le n.full;
  refused = λ frame n h. line_refused frame n.log n.full h;
  accepted = λ frame n h. line_accepted frame n.log n.full h;
  address_kept = λ frame n. refl;
}

abbrev board : Board line
board = record { arena = λ i. i % 251; net = record { log = []; full = true } }

abbrev request_frame : ℕ → ℕ
request_frame = received (0 ∷ 0 ∷ 0 ∷ 0 ∷ 0 ∷ 0 ∷ 2 ∷ 0 ∷ 0 ∷ 0 ∷ 0 ∷ 7 ∷ 144 ∷ 0 ∷ 0 ∷ 2 ∷ [])

handle_eth_frame-Sends_example :
    Sends line line_laws 16
      (λ i. request_frame (6 + i))
      0
      board
      (handle_eth_frame line 2 request_frame 60 board)
handle_eth_frame-Sends_example =
    handle_eth_frame-Sends line line_laws 2 request_frame 60 board (omega arith) refl refl
      (omega arith)

abbrev packet : List ℕ
packet = make_data_packet (λ i. 1) (λ i. 2) (11 ∷ 22 ∷ 33 ∷ []) 5000

handle_eth_frame-make_data_packet_example :
    (s' : Board line) × (handle_eth_frame line 2 (received packet) (length packet) board ≡ done s')
    × (slice s'.arena 5000 3 ≡ 11 ∷ 22 ∷ 33 ∷ [])
    × (slice s'.arena 0 5000 ≡ slice (board.arena) 0 5000)
    × ((j : ℕ) → s'.arena (5000 + 3 + j) ≡ board.arena (5000 + 3 + j))
    × (s'.net ≡ board.net)
handle_eth_frame-make_data_packet_example =
    handle_eth_frame-make_data_packet line 2 (λ i. 1) (λ i. 2) (11 ∷ 22 ∷ 33 ∷ []) 5000 board
      (omega arith) (omega arith)

serve_frames-script_example :
    ReturnsBuffer line 2
      (λ i. 1)
      (λ i. 2)
      (λ i. i % 253)
      line_laws
      board
      (serve_frames line 2 (script (λ i. 1) (λ i. 2) (λ i. i % 253)) board)
serve_frames-script_example =
    serve_frames-script line 2 (λ i. 1) (λ i. 2) (λ i. i % 253) line_laws board (omega arith)

-- A frame of 60 bytes with the offset 0xFFFFFFF0 and the length 16.
abbrev evil_frame : ℕ → ℕ
evil_frame = received (
    0 ∷ 0 ∷ 0 ∷ 0 ∷ 0 ∷ 0 ∷ 0 ∷ 0 ∷ 0 ∷ 0 ∷ 0 ∷ 0 ∷ 144 ∷ 0 ∷ 0 ∷ 1 ∷ 255 ∷ 255 ∷ 255 ∷ 240 ∷ 0 ∷ 0
    ∷ 0 ∷ 16 ∷ [])

handle_eth_frame_overrun_example : handle_eth_frame line 2 evil_frame 60 board ≡ overrun
handle_eth_frame_overrun_example =
    handle_eth_frame_overrun line 2 evil_frame 60 board refl refl (omega arith) (omega arith)
      (omega arith) (omega arith)

handle_eth_frame-chunk_frame_example :
    handle_eth_frame line 2
      (received (chunk_frame line (λ i. 3) 2048 1024 board))
      (length (chunk_frame line (λ i. 3) 2048 1024 board))
      board
    ≡ done board
handle_eth_frame-chunk_frame_example = handle_eth_frame-chunk_frame line 2 (λ i. 3) 2048 board board

-- A PHY that needs 25 ms to negotiate.
record Chip : Type 0 where
  position : ℕ
  time : ℕ

abbrev chip_value : (position time : ℕ) → ℕ
chip_value zero time = 0
chip_value (suc zero) time = if ltb time 25 then 0 else 0x24
chip_value (suc (suc zero)) time = 0x0007
chip_value (suc (suc (suc n))) time = 0xC0F1

abbrev chip : Mdio
chip = record {
  Phy = Chip;
  set_address = λ a p. p;
  set_position = λ a p. record p { position = a };
  read = λ p. (chip_value p.position p.time, p);
  write = λ v p. p;
  mdelay = λ n p. record p { time = p.time + n };
}

abbrev start : Chip
start = record { position = 0; time = 0 }

chip_up : (phy_init chip start).0 ≡ true
unfolding phy_init phy_reset phy_read_reg phy_write_reg negotiate wait
chip_up = refl

phy_init_iff_example : ((phy_init chip start).0 ≡ true) ↔ IsUp chip start
phy_init_iff_example = phy_init_iff chip start
