-- ===== src/Text.antt =====
-- Text: numbers as digits, and the words of a command line.
pub mod Number
pub mod Words
