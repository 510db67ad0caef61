-- ===== src/Dma.antt =====
-- drivers/dma: the registers of the DMA controllers dmac020 and dmac030. The bus maps an address to
-- the 32-bit word that was stored there last, or that the controller shows there; a channel's and a
-- controller's bit fields are bits of such words. `base` is the address of the registers. What the
-- controllers do by themselves is not seen; where the code waits for them, the words that it reads
-- are given.
pub mod Dmac020
pub mod Dmac030
pub mod Channels
use non_os_lite.Irq.{clear_line, set_line}
use non_os_lite.Prelude.{Bool, if◌then◌else◌, ℕ, ◌%◌, ◌*◌, ◌+◌, ◌/◌, ◌==◌, ◌^◌}

abbrev pub Bus : Type 0
Bus = ℕ → ℕ

-- `outl(val, addr)`
abbrev pub outl : ℕ → ℕ → Bus → Bus
outl val addr bus = λ q. if q == addr then val else bus q

-- `inw(addr)`: the lower half of the word, on the little-endian machine.
abbrev pub inw : ℕ → Bus → ℕ
inw addr bus = bus addr % 2 ^ 16

-- `&dma_ch[channel]`, and its registers `csr` (the first), `cfg`, `src_addr` and so on.
abbrev pub dma_ch : ℕ → ℕ → ℕ
dma_ch base channel = base + 0x100 + channel * 0x20

abbrev pub ch_cfg : ℕ → ℕ → ℕ
ch_cfg base channel = dma_ch base channel + 4

abbrev pub ch_src_addr : ℕ → ℕ → ℕ
ch_src_addr base channel = dma_ch base channel + 8

abbrev pub ch_dst_addr : ℕ → ℕ → ℕ
ch_dst_addr base channel = dma_ch base channel + 0xc

abbrev pub ch_llp : ℕ → ℕ → ℕ
ch_llp base channel = dma_ch base channel + 0x10

abbrev pub ch_size : ℕ → ℕ → ℕ
ch_size base channel = dma_ch base channel + 0x14

-- `dma_int`, `dma_int_tc`, `dma_int_tc_clr`, `dma_int_err`, `dma_int_err_clr`, `dma_ch_enable`: the
-- two controllers have them at the same place.
abbrev pub dma_int_tc : ℕ → ℕ
dma_int_tc base = base + 4

abbrev pub dma_int_tc_clr : ℕ → ℕ
dma_int_tc_clr base = base + 8

abbrev pub dma_int_err : ℕ → ℕ
dma_int_err base = base + 0xc

abbrev pub dma_int_err_clr : ℕ → ℕ
dma_int_err_clr base = base + 0x10

abbrev pub dma_ch_enable : ℕ → ℕ
dma_ch_enable base = base + 0x1c

-- `(word >> channel) & 1`
abbrev pub bit_of : ℕ → ℕ → ℕ
bit_of word channel = word / 2 ^ channel % 2

-- `word` with the bit set or cleared, as the field is assigned 1 or 0.
abbrev pub assign_bit : ℕ → ℕ → Bool → ℕ
assign_bit word k value = if value then set_line word k else clear_line word k

-- The interrupt status of a channel: 1 for the terminal count, 2 for an error.
unfoldable pub channel_int_status : ℕ → ℕ → Bus → ℕ
channel_int_status base channel bus =
    if bit_of (bus base) channel == 0
    then 0
    else bit_of (bus (dma_int_tc base)) channel + 2 * bit_of (bus (dma_int_err base)) channel

-- `DMA_SetInterrupt`, the masks in a word: a mask is clear for an interrupt that is wanted.
abbrev pub interrupt_masks : ℕ → ℕ → ℕ → ℕ → ℕ
interrupt_masks cfg tcintr errintr abtintr =
    assign_bit (assign_bit (assign_bit cfg 0 (tcintr == 0)) 1 (errintr == 0)) 2 (abtintr == 0)
