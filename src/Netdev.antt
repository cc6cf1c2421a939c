-- ===== src/Netdev.antt =====
-- The net_device bridge of bsp-6.6/compat/shim_netdev.c.
pub mod Notify
pub mod Events
pub mod Places
pub mod Notifiers
pub mod Again
pub mod Leaving
pub mod Delivery
pub mod Lookup
pub mod Flags
pub mod FlagTables
pub mod FlagBits
