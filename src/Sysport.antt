-- ===== src/Sysport.antt =====
-- The SYSTEMPORT Ethernet driver of port66/enet66/sysport6764.c: its configuration and the state
-- that the two netdevs (WAN and LAN in split mode) share.
pub mod Tag
pub mod Rx
pub mod Tx
pub mod Poll
pub mod Switch
pub mod Open
use cudy_wr3600_openwrt.Prelude.{Bool, ℕ, ℤ, ◌%◌, ◌+◌, ◌^◌}

-- `enum sp_role`, which also names the netdev.
pub data Role : Type 0 where
  lan wan : Role

pub data TagFmt : Type 0 where
  b53 type2 : TagFmt

-- Module parameters; `wan_port` is an `unsigned int`, `brcm_tag_port` an `int`.
pub record Config : Type 0 where
  pub split : Bool
  pub brcm_tag_port : ℤ
  pub wan_port : ℕ
  pub tag_fmt : TagFmt
  pub rx_marks : Bool
  pub tx_marks : Bool
  pub has_wan : Bool  -- `sp->wan_ndev` is set
  pub tx_timeout : ℕ  -- `msecs_to_jiffies(SP_TX_TIMEOUT_MS)`
  pub dma_pa : ℕ

-- The netdev counters that the two directions write, as `unsigned long` of 32 bits.
pub record RxStats : Type 0 where
  pub rx_packets : ℕ
  pub rx_bytes : ℕ
  pub rx_errors : ℕ
  pub rx_length_errors : ℕ
  pub rx_dropped : ℕ
  pub rx_fifo_errors : ℕ

pub record TxStats : Type 0 where
  pub tx_packets : ℕ
  pub tx_bytes : ℕ
  pub tx_errors : ℕ
  pub tx_dropped : ℕ

abbrev pub zero_rx_stats : RxStats
zero_rx_stats = record {
  rx_packets = 0;
  rx_bytes = 0;
  rx_errors = 0;
  rx_length_errors = 0;
  rx_dropped = 0;
  rx_fifo_errors = 0;
}

abbrev pub zero_tx_stats : TxStats
zero_tx_stats = record { tx_packets = 0; tx_bytes = 0; tx_errors = 0; tx_dropped = 0 }

abbrev pub word : ℕ
word = 2 ^ 32

-- `stat += n`
abbrev pub bump : ℕ → ℕ → ℕ
bump stat n = (stat + n) % word

abbrev pub num_rx_bufs : ℕ
num_rx_bufs = 32

abbrev pub num_tx_bufs : ℕ
num_tx_bufs = 1

abbrev pub dma_bufsize : ℕ
dma_bufsize = 2048

abbrev pub max_pkt_len : ℕ
max_pkt_len = 1536

abbrev pub enet_zlen : ℕ
enet_zlen = 60

abbrev pub tag_len : ℕ
tag_len = 4
