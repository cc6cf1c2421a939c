-- ===== src/Lib.antt =====
-- Verification of the C code that runs the Cudy WR3600's stock wireless and Ethernet hardware on Linux
-- 6.6.
--
-- The program has two halves. bsp-6.6/compat holds the compatibility layer under the vendor's binary
-- modules (hnd.ko, wl.ko): the symbols that they import, with the vendor's semantics over a current
-- kernel. port66 holds the drivers: the SYSTEMPORT Ethernet MAC and the integrated switch under it
-- (port66/enet66), whose received frames and transmitted frames carry a 4-byte tag that tells the
-- switch's ports apart.
--
-- Prelude        names of the libraries, lists, C strings, error numbers, bit operations at variables,
--                and `Memory`: an allocator that grants or refuses the n-th request, with the number
--                of live allocations.
-- Nvram          bsp-6.6/compat/shim_nvram.c. `Nvram` is the list of entries, the allocator and the
--                miss counter; `k_get`, `k_set_worker` and `getall` are wlcsm_nvram_k_get,
--                shim_nvram_k_set_worker and wlcsm_nvram_getall. Nvram/Init is shim_nvram_init and
--                the MAC addresses; the kernel's mac_pton and %pM are its parameters.
-- D3lut          section B of bsp-6.6/compat/wl_compat.c. A `Pool` is one index of the struct's
--                arrays; `ins`, `lkup`, `del`, `clr` and `policy_set` are the d3lut_ functions. wl.ko
--                writes into elements that it was handed; D3lut/Reach has those writes as steps.
-- DyingGasp      the dying-gasp handlers of wl_compat.c, a table of 16 slots.
-- BcmFun         the numbered hooks of wl_compat.c: bcmFun_get, bcmFun_reg and bcmFun_dereg.
-- Sysport        port66/enet66/sysport6764.c. Sysport/Tag decodes and writes the tags, Sysport/Rx is
--                sp_rx_one, Sysport/Tx is sp_tx_reclaim and sp_xmit, Sysport/Poll is sp_napi_poll and
--                the poll timer, Sysport/Open is sp_open, sp_stop and what they call.
-- Sysport/Switch sf2_6764_open and sf2_6764_close of port66/enet66/sf2_6764.c.
-- Pktlist        the pktlist contexts of bsp-6.6/compat/wl_compat.c: Pktlist/Context has the lists of a
--                context as maps between the places of its nodes, pktlist_context_init with the answers
--                of the three allocations as an argument, and pktlist_context_fini.
-- Skb            bsp-6.6/compat/shim_skb.c: the descriptors in the vendor's layout that the binary
--                modules edit. `Packet` has the fields that the shim reads; `validate` is
--                skb419_validate, Skb/Create the allocators, and reserve, put, push, pull, trim and
--                pool_reset the shim_skb_ functions, which Skb/Room describes by three sizes.
--                Skb/Heap is shim_skb_clone and shim_skb_free over descriptors that share blocks.
-- Dma            bsp-6.6/compat/shim_dma.c. `Dma` is the eight bindings with the references that they
--                hold and the log of calls of the native DMA API; bind, unbind, arch_setup, hnd_kfree
--                and exit are the registry's functions, Dma/Ops the table arm_dma_ops, whose native
--                API `Api` is a parameter, and Dma/Gfp is shim_gfp419 of bsp-6.6/compat/shim_gfp.h.
-- Netdev         bsp-6.6/compat/shim_netdev.c. Netdev/Notify has the slots, the callbacks of
--                the notifiers and the kernel's chain, whose answers `Kernel` are a parameter; register and unregister are bcm_shim_register_netdevice_notifier and
--                bcm_shim_unregister_netdevice_notifier, and deliver is the trampoline. Netdev/Lookup is
--                the map between views and devices, with bcm_shim_dev_get_by_name_legacy, and
--                Netdev/Flags is flags_to_native and flags_to_old, whose tables are arguments:
--                Netdev/FlagTables has those of bsp-6.6/compat/shim_netdev_flags.h.
-- Slots          the tables of slots that Dma and Netdev keep.
-- Vpcie          port66/vpcie66/vpcie66.c: the configuration space byte by byte, its reads and writes,
--                what it is filled with (Vpcie/Build), and the device tree, probe and removal
--                (Vpcie/Probe), with the kernel's helpers and the PCI core as the parameter `World`.
-- Leds           port66/leds66/leds-bca-cled.c: the registers of the controller, with those that act
--                on the bits written to them as a log of commands.
-- Cascade        port66/cascade66/cascade6764.c. `Bus` is the MDIO bus: the log of writes and the
--                answers to reads. Cascade/Firmware is the download, Cascade/Commands the command
--                handler and the configuration, Cascade/Link the poll, Cascade/Module the load.
--                Cascade/Window describes the PHY's on-chip RAM by the writes that it accepts.
-- Tests          runs on concrete inputs.
--
-- Functions that change state take it and return it. Values of the machine are native numbers with
-- their wrap-around written out. Memory and registers that the hardware writes are read from traces: a
-- function from the number of the read to the value, or a function that changes the ring before each
-- look at it. Operations are steps: the code holds a lock over the state that each of them changes.
-- The wait at the end of sp_xmit, which takes the lock for each look, is part of that step, so that no
-- other call stands between its looks. Markers for the serial console are kept as lists where they
-- depend on the state.
--
-- Bounds: loops over lists are structural. The wait of sp_xmit runs at most 100 times and those for
-- the DMA engines, the cascade PHY and the LED controller 1000 times, as in the code. The loop of
-- sp_napi_poll recurs on the budget that is left.
--
-- Not modelled: the remaining shims of bsp-6.6/compat (copies, queues and metadata of skbs, cfg80211,
-- the allocation and registration of net_device views, PCIe drivers), the serdes, external switch and
-- reboot drivers, the constant register programming and the probe routines of the Ethernet drivers,
-- diagnostic modules, patched kernel files, tools and scripts.
pub mod Prelude
pub mod Nvram
pub mod D3lut
pub mod Skb
pub mod Sysport
pub mod BcmFun
pub mod Slots
pub mod Netdev
pub mod Pktlist
pub mod Dma
pub mod Cascade
pub mod Leds
pub mod Vpcie
pub mod DyingGasp
mod Tests
