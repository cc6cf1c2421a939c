-- ===== src/Skb/Create.antt =====
-- `shim_skb_alloc` and `bcm419_legacy_netdev_alloc_skb` of shim_skb.c. `size_t` has 32 bits. The sizes
-- of the legacy structures are generated constants, and are arguments here, as is NET_SKB_PAD.
pub mod Fresh
use cudy_wr3600_openwrt.Prelude.{
  Bool, List, Memory, Option, [], false, free_one, granted, if◌then◌else◌, leb, none, not, request,
  some, suc, true, zero, ℕ, ◌*◌, ◌+◌, ◌/◌, ◌^◌, ◌||◌, ◌∷◌,
}
use cudy_wr3600_openwrt.Skb.{Packet, magic, reserve}

pub record Layout : Type 0 where
  pub sizeof_sk_buff : ℕ
  pub info_room : ℕ  -- `ALIGN(SK419_size_skb_shared_info, 64)`
  pub sizeof_data : ℕ
  pub info_low_n : ℕ
  pub info_high_n : ℕ
  pub ext_low_n : ℕ
  pub ext_high_n : ℕ

abbrev pub zeros : ℕ → List ℕ
zeros zero = []
zeros (suc n) = 0 ∷ zeros n

-- `(size + 63) & ~63U`
abbrev pub round_up : ℕ → ℕ
round_up size = (size + 63) / 64 * 64

-- The tests of `check_add_overflow`.
pub overflows : Layout → ℕ → Bool
overflows l size =
    leb (2 ^ 32) (size + 63)
    || leb (2 ^ 32) (round_up size + (l.sizeof_data + l.info_room + 8))
    || leb (2 ^ 32) (round_up size + (l.sizeof_sk_buff + l.info_room))

-- The descriptor over a new data block at `base`: both are zeroed where they are not written.
unfoldable pub created : Layout → ℕ → ℕ → Packet
created l base capacity = record {
  registered = true;
  before = magic;
  after = magic;
  has_data = true;
  guard = magic;
  users = 1;
  dataref = 1;
  base = base;
  capacity = capacity;
  head = base;
  data_at = base;
  tail = base;
  end_at = base + capacity;
  len = 0;
  data_len = 0;
  nr_frags = 0;
  frag_list = 0;
  head_frag = false;
  info_low = zeros l.info_low_n;
  info_high = zeros l.info_high_n;
  gso_size = 0;
  gso_segs = 0;
  gso_type = 0;
  hwtstamp = 0;
  tskey = 0;
  cfi_save = 0;
  ext_low = zeros l.ext_low_n;
  ext_high = zeros l.ext_high_n;
  recycle_flags = 0;
  refs = zeros 7;
  cloned = false;
  truesize = capacity + (l.sizeof_sk_buff + l.info_room);
}

-- `shim_skb_alloc`; the data block would be placed at `base`.
pub alloc : Layout → ℕ → ℕ → Memory → Option Packet × Memory
alloc l base size mem =
    let entry = request mem in
    let both = request entry in
    if overflows l size
    then (none, mem)
    else if not (granted mem)
    then (none, entry)
    else if not (granted entry)
    then (none, free_one both)
    else (some (created l base (round_up size)), both)

-- `bcm419_legacy_netdev_alloc_skb`, up to the device pointer.
pub netdev_alloc : ℕ → ℕ → Layout → ℕ → ℕ → Memory → Option Packet × Memory
netdev_alloc vlan_bit skb_pad l base len mem =
    let result : Option Packet × Memory = elim (alloc l base (len + skb_pad) mem).0 [
      | none ↦ (none, (alloc l base (len + skb_pad) mem).1)
      | some p ↦
          if (reserve vlan_bit skb_pad p).0
          then (some (reserve vlan_bit skb_pad p).1, (alloc l base (len + skb_pad) mem).1)
          else (none, free_one (free_one (alloc l base (len + skb_pad) mem).1))
    ] in
    if leb (2 ^ 32) (len + skb_pad) then (none, mem) else result
