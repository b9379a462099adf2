-- ===== src/Golang.antt =====
-- What the program uses of Go's standard library: package strings, the readers of decimal numbers
-- of strconv and fmt, and the contract of sort.Slice.
pub mod Strings
pub mod Trimming
pub mod Bits
pub mod Numbers
pub mod Sorting
