-- ===== src/Logfmt.antt =====
-- polars-logfmt/src/logfmt.rs: the scanner of a line, the values, and the rows.
pub mod Scan
pub mod Formats
pub mod Integers
pub mod Value
pub mod Rows
pub mod Samples
mod Tests
