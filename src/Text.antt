-- ===== src/Text.antt =====
-- What the program uses of Go's `strings`, `strconv` and `encoding/hex`. A Go string is a `String`, a
-- list of Unicode code points: text that is not valid UTF-8 is not modelled.
pub mod Trim
pub mod Hex
pub mod Decimal
pub mod Base64
pub mod Utf8
pub mod Compare
pub mod Split
