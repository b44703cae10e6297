-- ===== src/Text.antt =====
-- The parts of Go's strconv and of its string conversion that the program uses.
pub mod Decimal
pub mod Utf8
