-- ===== src/Aplaylist/Navigate.antt =====
-- Going from clip to clip: `pls_get_next`, `pls_get_prev`, `pls_get_starting` and `pls_get_last`.
pub mod Relations
pub mod Next
pub mod Prev
pub mod RoundTrip
pub mod Visit
pub mod Tour
