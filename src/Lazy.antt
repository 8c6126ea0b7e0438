-- ===== src/Lazy.antt =====
-- polars-logfmt/src/lazy.rs and lazy/lazy_logfmt_reader.rs: the readers of a source.
pub mod Lines
pub mod Infer
mod Tests
pub mod Frames
pub mod Workers
pub mod Batch
pub mod Units
pub mod RowCap
pub mod Reader
pub mod Scan
pub mod Parallel
pub mod Source
pub mod Builder
pub mod Columns
pub mod Table
pub mod Dtypes
