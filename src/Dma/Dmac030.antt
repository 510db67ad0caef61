-- ===== src/Dma/Dmac030.antt =====
-- drivers/dma/dmac030.c, with DMA_INT_POLLING as include/dmac030.h defines it: the interrupt handler
-- is not compiled.
use non_os_lite.Prelude.{
  List, Option, [], bit_or, if◌then◌else◌, none, some, u32, u8, ℕ, ◌%◌, ◌*◌, ◌+◌, ◌/◌, ◌==◌, ◌^◌,
  ◌∷◌,
}
use non_os_lite.Irq.{clear_line, set_line}
use non_os_lite.Dma.{
  Bus, bit_of, ch_cfg, ch_dst_addr, ch_llp, ch_size, ch_src_addr, channel_int_status, dma_ch,
  dma_ch_enable, dma_int_err_clr, dma_int_tc_clr, interrupt_masks, inw, outl,
}

unfoldable pub dma_set_ch_csr : ℕ → ℕ → ℕ → Bus → Bus
dma_set_ch_csr base channel csr bus = outl csr (dma_ch base channel) bus

unfoldable pub dma_get_ch_csr : ℕ → ℕ → Bus → ℕ
dma_get_ch_csr base channel bus = bus (dma_ch base channel)

unfoldable pub dma_set_ch_cfg : ℕ → ℕ → ℕ → Bus → Bus
dma_set_ch_cfg base channel cfg bus = outl cfg (ch_cfg base channel) bus

unfoldable pub dma_set_ldm_addr : ℕ → ℕ → Bus → Bus
dma_set_ldm_addr base address bus = outl address (base + 0x24) bus

-- `csr & DMA_CSR_CH_EN`
unfoldable pub dma_is_channel_enable : ℕ → ℕ → Bus → ℕ
dma_is_channel_enable base channel bus = bit_of (bus (dma_ch base channel)) 16 * 2 ^ 16

-- A round of the polling loop: what `dma_tc` and then `dma_err` show. The result is the status and
-- the registers; `none` when neither bit is in any round.
unfoldable pub dma_wait_int_status : ℕ → ℕ → List (ℕ × ℕ) → Bus → Option (ℕ × Bus)
dma_wait_int_status base channel [] bus = none
dma_wait_int_status base channel (round ∷ more) bus =
    let later = dma_wait_int_status base channel more bus in
    if bit_of round.0 channel == 1
    then some (1, outl (2 ^ channel) (dma_int_tc_clr base) bus)
    else if bit_of round.1 channel == 1
    then some (2, outl (2 ^ channel) (dma_int_err_clr base) bus)
    else later

-- `d_width` and `dfifo_depth` of the feature register; the messages are left out.
unfoldable pub dma_get_axi_bus_width : ℕ → Bus → ℕ
dma_get_axi_bus_width base bus = inw (base + 0x38) bus / 2 ^ 4 % 4 + 2

unfoldable pub dma_get_depth_of_fifo : ℕ → Bus → ℕ
dma_get_depth_of_fifo base bus = inw (base + 0x38) bus / 2 ^ 8 % 8

unfoldable pub is_dma_channel_enable : ℕ → ℕ → Bus → ℕ
is_dma_channel_enable base channel bus = bit_of (bus (dma_ch_enable base)) channel

unfoldable pub get_dma_int_status : ℕ → Bus → ℕ
get_dma_int_status base bus = bus base

unfoldable pub get_dma_channel_int_status : ℕ → ℕ → Bus → ℕ
unfolding channel_int_status
get_dma_channel_int_status base channel bus = channel_int_status base channel bus

unfoldable pub get_dma_enable_status : ℕ → Bus → ℕ
get_dma_enable_status base bus = bus (dma_ch_enable base)

-- `csr.ch_en` is the bit 16.
unfoldable pub enable_dma_channel : ℕ → ℕ → Bus → Bus
enable_dma_channel base channel bus =
    let csr = dma_ch base channel in outl (set_line (bus csr) 16) csr bus

unfoldable pub disable_dma_channel : ℕ → ℕ → Bus → Bus
disable_dma_channel base channel bus =
    let csr = dma_ch base channel in outl (clear_line (bus csr) 16) csr bus

-- The register is read as a half word, and written as a word.
unfoldable pub enable_dma_channel_endian_converter : ℕ → ℕ → Bus → Bus
enable_dma_channel_endian_converter base channel bus =
    outl (set_line (inw (base + 0x4c) bus) channel) (base + 0x4c) bus

-- `0 << Channel`
unfoldable pub disable_dma_channel_endian_converter : ℕ → ℕ → Bus → Bus
disable_dma_channel_endian_converter base channel bus = outl (0 * 2 ^ channel) (base + 0x4c) bus

unfoldable pub enable_dma_channel_write_only : ℕ → ℕ → Bus → Bus
enable_dma_channel_write_only base channel bus =
    let cfg = ch_cfg base channel in outl (set_line (bus cfg) 30) cfg bus

unfoldable pub enable_dma_channel_unalign : ℕ → ℕ → Bus → Bus
enable_dma_channel_unalign base channel bus =
    let cfg = ch_cfg base channel in outl (set_line (bus cfg) 31) cfg bus

unfoldable pub clear_dma_channel_int_status : ℕ → ℕ → Bus → Bus
clear_dma_channel_int_status base channel bus =
    outl (2 ^ channel) (dma_int_err_clr base) (outl (2 ^ channel) (dma_int_tc_clr base) bus)

unfoldable pub set_dma_channel_cfg : ℕ → ℕ → ℕ → Bus → Bus
set_dma_channel_cfg base channel csr bus = outl csr (dma_ch base channel) bus

unfoldable pub get_dma_channel_cfg : ℕ → ℕ → Bus → ℕ
get_dma_channel_cfg base channel bus = bus (dma_ch base channel)

unfoldable pub dma_ch_int_mask : ℕ → ℕ → ℕ → Bus → Bus
dma_ch_int_mask base channel mask bus = outl mask (ch_cfg base channel) bus

unfoldable pub dma_ch_link_list : ℕ → ℕ → ℕ → Bus → Bus
dma_ch_link_list base channel llp bus = outl llp (ch_llp base channel) bus

unfoldable pub dma_ch_data_ctrl : ℕ → ℕ → ℕ → ℕ → ℕ → Bus → Bus
dma_ch_data_ctrl base channel src_addr dst_addr size bus =
    outl size (ch_size base channel)
      (outl dst_addr (ch_dst_addr base channel) (outl src_addr (ch_src_addr base channel) bus))

-- The counts and the strides in the halves of a word.
unfoldable pub dma_ch_data_ctrl_2d : ℕ → ℕ → ℕ → ℕ → ℕ → ℕ → ℕ → ℕ → Bus → Bus
dma_ch_data_ctrl_2d base channel src_addr dst_addr xtcnt ytcnt dst_stride src_stride bus =
    let m =
      outl dst_addr (ch_dst_addr base channel) (outl src_addr (ch_src_addr base channel) bus) in
    outl (bit_or (u32 (dst_stride * 2 ^ 16)) src_stride) (dma_ch base channel + 0x18)
      (outl (bit_or (u32 (ytcnt * 2 ^ 16)) xtcnt) (ch_size base channel) m)

-- `cfg` is a variable that is not set before its masks are: `indeterminate` is what it happens to
-- hold.
unfoldable pub dma_set_interrupt : ℕ → ℕ → ℕ → ℕ → ℕ → ℕ → Bus → Bus
unfolding dma_ch_int_mask
dma_set_interrupt indeterminate base channel tcintr errintr abtintr bus =
    dma_ch_int_mask base channel (interrupt_masks indeterminate tcintr errintr abtintr) bus

-- The channel is a `uint8_t`.
unfoldable pub dma_reset_channel : ℕ → ℕ → Bus → Bus
dma_reset_channel base channel bus =
    let c = u8 channel in
    let m1 = outl 7 (ch_cfg base c) (outl 0 (dma_ch base c) bus) in
    let m2 = outl 0 (ch_dst_addr base c) (outl 0 (ch_src_addr base c) m1) in
    outl 0 (ch_size base c) (outl 0 (ch_llp base c) m2)

unfoldable pub dma_clear_all_interrupt : ℕ → Bus → Bus
dma_clear_all_interrupt base bus =
    outl 0xff00ff (dma_int_err_clr base) (outl 0xff (dma_int_tc_clr base) bus)

unfoldable pub dma_set_write_only_value : ℕ → ℕ → Bus → Bus
dma_set_write_only_value base value bus = outl value (base + 0x50) bus

-- DMA_FEATURE_UNALIGN is the bit 3; the register is read as a half word.
unfoldable pub dma_enable_feature_unalign : ℕ → Bus → Bus
dma_enable_feature_unalign base bus = outl (set_line (inw (base + 0x38) bus) 3) (base + 0x38) bus

unfoldable pub dma_unalign_feature : ℕ → Bus → ℕ
dma_unalign_feature base bus = if bit_of (inw (base + 0x38) bus) 3 == 0 then 0 else 1

-- `dma_plverr = 0`
unfoldable pub init_dma : ℕ → Bus → Bus
init_dma base bus = outl 0 (base + 0x30) bus
