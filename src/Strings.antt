-- ===== src/Strings.antt =====
-- The functions of Go's `strings`, `bufio`, `strconv` and `path/filepath` that the program calls.
pub mod Search
pub mod Split
pub mod Trim
pub mod Lines
pub mod Lower
pub mod Hex
pub mod Decimal
pub mod FilePath
pub mod SplitByte
pub mod Cutset
pub mod Quote
