-- ===== src/Go.antt =====
-- What the program takes from the Go language: float64, decoded JSON, and text.
pub mod Float
pub mod Int
pub mod Text
pub mod Any
