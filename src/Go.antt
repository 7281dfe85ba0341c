-- ===== src/Go.antt =====
-- What the code uses of Go's standard library on texts.
pub mod Strings
pub mod Suffix
pub mod Strconv
pub mod Paths
