-- ===== src/Filter.antt =====
-- mafw/libmafw/mafw-filter.c: filters, their text and its quoting.
pub mod Quote
pub mod Types
pub mod Parse
pub mod Print
pub mod Quoting
pub mod Bounds
pub mod Simple
pub mod RoundTrip
pub mod Copy
mod Tests
pub mod Total
