-- ===== src/Pktlist.antt =====
-- The pktlist contexts of bsp-6.6/compat/wl_compat.c.
pub mod Context
pub mod Ring
pub mod Session
