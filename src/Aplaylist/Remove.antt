-- ===== src/Aplaylist/Remove.antt =====
-- `pls_remove`: what it does to the items and to the order, and where it breaks the order.
pub mod Order
pub mod Removes
pub mod Loses
