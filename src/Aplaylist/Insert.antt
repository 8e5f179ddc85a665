-- ===== src/Aplaylist/Insert.antt =====
-- `pls_inserts` and what calls it: the arrays grow, the items come in, and the order follows.
pub mod Room
pub mod Order
pub mod Items
pub mod Inserts
