-- ===== src/Text.antt =====
-- The string helpers: util/CharUtil.hxx, util/StringStrip, util/StringSplit.hxx, and what the
-- program uses of the C library on strings.
pub mod Chars
pub mod Strip
pub mod Decimal
pub mod Lines
