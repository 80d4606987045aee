-- ===== src/Boards.antt =====
-- The boards of the files examples/<platform>/shared/board.c, family by family: any program of any board.
pub mod Lpc17
pub mod Lpc1
pub mod Stm32
pub mod Nuvoton
mod Tests
