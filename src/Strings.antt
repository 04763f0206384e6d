-- ===== src/Strings.antt =====
-- The functions of Go's `strings` and `strconv` packages that the program calls, over bytes.
pub mod Affix
pub mod Number
pub mod Space
pub mod Split
