-- ===== src/Dma/Dmac020.antt =====
-- drivers/dma/dmac020.c
use non_os_lite.Irq.{clear_line, set_line}
use non_os_lite.Prelude.{
  List, Option, [], if◌then◌else◌, leb, ltb, none, some, u8, ℕ, ◌%◌, ◌&&◌, ◌+◌, ◌==◌, ◌^◌, ◌∷◌,
}
use non_os_lite.Dma.{
  Bus, bit_of, ch_cfg, ch_dst_addr, ch_llp, ch_size, ch_src_addr, channel_int_status, dma_ch,
  dma_ch_enable, dma_int_err_clr, dma_int_tc_clr, interrupt_masks, outl,
}

unfoldable pub f_lib_is_dma_channel_busy : ℕ → ℕ → Bus → ℕ
f_lib_is_dma_channel_busy base channel bus = bit_of (bus (base + 0x20)) channel

unfoldable pub f_lib_is_dma_channel_enable : ℕ → ℕ → Bus → ℕ
f_lib_is_dma_channel_enable base channel bus = bit_of (bus (dma_ch_enable base)) channel

unfoldable pub f_lib_get_dma_busy_status : ℕ → Bus → ℕ
f_lib_get_dma_busy_status base bus = bus (base + 0x20)

unfoldable pub f_lib_get_dma_enable_status : ℕ → Bus → ℕ
f_lib_get_dma_enable_status base bus = bus (dma_ch_enable base)

unfoldable pub f_lib_get_dma_int_status : ℕ → Bus → ℕ
f_lib_get_dma_int_status base bus = bus base

unfoldable pub f_lib_get_dma_channel_int_status : ℕ → ℕ → Bus → ℕ
unfolding channel_int_status
f_lib_get_dma_channel_int_status base channel bus = channel_int_status base channel bus

unfoldable pub f_lib_init_dma : ℕ → ℕ → ℕ → ℕ → Bus → Bus
f_lib_init_dma base m0_big_endian m1_big_endian sync bus =
    let endian0 = if m0_big_endian == 0 then 0 else 2 in
    let endian1 = if m1_big_endian == 0 then 0 else 4 in
    outl sync (base + 0x28) (outl (endian0 + endian1 + 1) (base + 0x24) bus)

unfoldable pub f_lib_enable_dma_channel : ℕ → ℕ → Bus → Bus
f_lib_enable_dma_channel base channel bus =
    let csr = dma_ch base channel in outl (set_line (bus csr) 0) csr bus

unfoldable pub f_lib_disable_dma_channel : ℕ → ℕ → Bus → Bus
f_lib_disable_dma_channel base channel bus =
    let csr = dma_ch base channel in outl (clear_line (bus csr) 0) csr bus

unfoldable pub f_lib_enable_dma : ℕ → ℕ → Bus → Bus
f_lib_enable_dma base value bus =
    outl (clear_line (bus (base + 0x24)) 0 + value % 2) (base + 0x24) bus

unfoldable pub f_lib_clear_dma_channel_int_status : ℕ → ℕ → Bus → Bus
f_lib_clear_dma_channel_int_status base channel bus =
    outl (2 ^ channel) (dma_int_err_clr base) (outl (2 ^ channel) (dma_int_tc_clr base) bus)

unfoldable pub f_lib_set_dma_channel_cfg : ℕ → ℕ → ℕ → Bus → Bus
f_lib_set_dma_channel_cfg base channel csr bus = outl csr (dma_ch base channel) bus

unfoldable pub f_lib_get_dma_channel_cfg : ℕ → ℕ → Bus → ℕ
f_lib_get_dma_channel_cfg base channel bus = bus (dma_ch base channel)

unfoldable pub f_lib_set_dma_channel_cn_cfg : ℕ → ℕ → ℕ → Bus → Bus
f_lib_set_dma_channel_cn_cfg base channel cn_cfg bus = outl cn_cfg (ch_cfg base channel) bus

unfoldable pub f_lib_get_dma_channel_cn_cfg : ℕ → ℕ → Bus → ℕ
f_lib_get_dma_channel_cn_cfg base channel bus = bus (ch_cfg base channel)

unfoldable pub f_lib_dma_ch_int_mask : ℕ → ℕ → ℕ → Bus → Bus
f_lib_dma_ch_int_mask base channel mask bus = outl mask (ch_cfg base channel) bus

unfoldable pub f_lib_dma_ch_link_list : ℕ → ℕ → ℕ → Bus → Bus
f_lib_dma_ch_link_list base channel link_list_addr bus =
    outl link_list_addr (ch_llp base channel) bus

unfoldable pub f_lib_dma_ch_data_ctrl : ℕ → ℕ → ℕ → ℕ → ℕ → Bus → Bus
f_lib_dma_ch_data_ctrl base channel src_addr dst_addr size bus =
    outl size (ch_size base channel)
      (outl dst_addr (ch_dst_addr base channel) (outl src_addr (ch_src_addr base channel) bus))

unfoldable pub f_lib_dma_set_interrupt : ℕ → ℕ → ℕ → ℕ → ℕ → Bus → Bus
unfolding f_lib_get_dma_channel_cn_cfg f_lib_dma_ch_int_mask
f_lib_dma_set_interrupt base channel tcintr errintr abtintr bus =
    f_lib_dma_ch_int_mask base channel
      (interrupt_masks (f_lib_get_dma_channel_cn_cfg base channel bus) tcintr errintr abtintr) bus

-- `memset` of the eight words of a channel; the channel is an `unchar`.
unfoldable pub f_lib_dma_reset_channel : ℕ → ℕ → Bus → Bus
f_lib_dma_reset_channel base channel bus =
    let ch = dma_ch base (u8 channel) in λ q. if leb ch q && ltb q (ch + 0x20) then 0 else bus q

-- The address stands where `outl` takes the value, and the value where it takes the address.
unfoldable pub f_lib_dma_clear_all_interrupt : ℕ → Bus → Bus
f_lib_dma_clear_all_interrupt base bus = outl (base + 0x10) 0xff00ff (outl (base + 8) 0xff bus)

-- The words that the loop reads from `dma_tc`; `none` when the bit is in none of them.
unfoldable pub f_lib_dma_wait_int_status : ℕ → ℕ → List ℕ → Bus → Option Bus
unfolding f_lib_disable_dma_channel
f_lib_dma_wait_int_status base channel [] bus = none
f_lib_dma_wait_int_status base channel (tc ∷ more) bus =
    let later = f_lib_dma_wait_int_status base channel more bus in
    if bit_of tc channel == 0 then later else some (f_lib_disable_dma_channel base channel bus)
