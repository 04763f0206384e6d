-- ===== src/Device.antt =====
-- The jumperless package: the port of a board, and the board behind it.
pub mod Port
pub mod Board
