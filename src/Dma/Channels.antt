-- ===== src/Dma/Channels.antt =====
-- What the functions of drivers/dma do to the registers of a channel, and which they leave alone.
use non_os_lite.Prelude.{
  Bool, Bool-cases, List, [], arith, eq→==, false, if◌then◌else◌, inl, inr, ne→==, refl, some, true,
  ℕ, ◌++◌, ◌+◌, ◌<◌, ◌==◌, ◌^◌, ◌∙◌, ◌∷◌, ◌≡◌, ◌≢◌, ◌≤◌, ◌⊎◌,
}
use non_os_lite.Irq.{pending}
use non_os_lite.Irq.Controller.{clear_line-lines, set_line-lines}
use non_os_lite.Dma.{
  Bus, assign_bit, bit_of, ch_cfg, dma_int_err_clr, dma_int_tc_clr, interrupt_masks, outl,
}
use non_os_lite.Dma.Dmac020.{
  f_lib_dma_ch_int_mask, f_lib_dma_clear_all_interrupt, f_lib_dma_set_interrupt,
  f_lib_get_dma_channel_cn_cfg,
}
use non_os_lite.Dma.Dmac030.{dma_clear_all_interrupt, dma_wait_int_status}

assign_bit-lines :
    (w k : ℕ) (value : Bool) (j : ℕ)
    → pending (assign_bit w k value) j ≡ (if j == k then value else pending w j)
assign_bit-lines w k true j = set_line-lines w k j ∙ ground arith
assign_bit-lines w k false j = clear_line-lines w k j ∙ ground arith

-- The bits of the configuration after the masks have been set.
abbrev pub mask_of : ℕ → ℕ → ℕ → ℕ → Bool → Bool
mask_of tcintr errintr abtintr j old =
    if j == 0
    then tcintr == 0
    else if j == 1
    then errintr == 0
    else if j == 2
    then abtintr == 0
    else old

interrupt_masks-lines :
    (cfg tcintr errintr abtintr j : ℕ)
    → pending (interrupt_masks cfg tcintr errintr abtintr) j
      ≡ mask_of tcintr errintr abtintr j (pending cfg j)
interrupt_masks-lines cfg tcintr errintr abtintr j =
    rw
      (
        assign_bit-lines (assign_bit (assign_bit cfg 0 (tcintr == 0)) 1 (errintr == 0)) 2
            (abtintr == 0) j,
        assign_bit-lines (assign_bit cfg 0 (tcintr == 0)) 1 (errintr == 0) j,
        assign_bit-lines cfg 0 (tcintr == 0) j,
      )
      (ground arith)

-- After fLib_DMA_SetInterrupt the masks of the channel's three interrupts are clear exactly for those
-- that are wanted, its other configuration bits are as before, and so is every other register, the
-- whole configuration of the other channels included.
pub f_lib_dma_set_interrupt-masks :
    (base channel tcintr errintr abtintr : ℕ) (bus : Bus) (j q : ℕ)
    → q ≢ ch_cfg base channel
    → let after = f_lib_dma_set_interrupt base channel tcintr errintr abtintr bus in
      (pending (after (ch_cfg base channel)) j
        ≡ mask_of tcintr errintr abtintr j (pending (bus (ch_cfg base channel)) j))
      × (after q ≡ bus q)
unfolding f_lib_dma_set_interrupt f_lib_get_dma_channel_cn_cfg f_lib_dma_ch_int_mask
f_lib_dma_set_interrupt-masks base channel tcintr errintr abtintr bus j q other =
    let cfg = ch_cfg base channel in
    (
      rw (eq→== cfg cfg refl) (interrupt_masks-lines (bus cfg) tcintr errintr abtintr j),
      rw (ne→== q cfg other) refl,
    )

-- For registers that stand anywhere behind the address 0xff00ff: the call of dmac030.c stores its two
-- masks in the clear registers; that of dmac020.c leaves each of the 128 words of the registers as it
-- is.
pub dma_clear_all_interrupt-registers :
    (base : ℕ) (bus : Bus) (q : ℕ)
    → 0xff00ff < base
    → base ≤ q
    → q < base + 0x200
    → (dma_clear_all_interrupt base bus (dma_int_tc_clr base) ≡ 0xff)
      × (dma_clear_all_interrupt base bus (dma_int_err_clr base) ≡ 0xff00ff)
      × (f_lib_dma_clear_all_interrupt base bus q ≡ bus q)
unfolding dma_clear_all_interrupt f_lib_dma_clear_all_interrupt
dma_clear_all_interrupt-registers base bus q h low high = (ground arith, ground arith, ground arith)

-- Rounds in which the channel's bit is neither in `dma_tc` nor in `dma_err`.
abbrev pub Quiet : ℕ → List (ℕ × ℕ) → Type 0
Quiet channel [] = Unit {0}
Quiet channel (round ∷ more) =
    ((bit_of round.0 channel ≡ 0) × (bit_of round.1 channel ≡ 0)) × Quiet channel more

-- The status that a round stands for, the terminal count first.
abbrev pub status_of : ℕ → ℕ × ℕ → ℕ
status_of channel round = if bit_of round.0 channel == 1 then 1 else 2

-- The wait of dmac030.c ends in the first round that shows the terminal count or an error of the
-- channel, however many rounds without either come before. It returns 1 for the terminal count, also
-- when both are shown, and 2 for an error, and stores the channel's bit in the clear register of what
-- it returns, and nothing else.
pub dma_wait_int_status-first :
    (base channel : ℕ) (before more : List (ℕ × ℕ)) (round : ℕ × ℕ) (bus : Bus)
    → Quiet channel before
    → (bit_of round.0 channel ≡ 1) ⊎ (bit_of round.1 channel ≡ 1)
    → dma_wait_int_status base channel (before ++ (round ∷ more)) bus ≡ (
        let status = status_of channel round in
        some (
          status,
          outl
              (2 ^ channel)
              (if status == 1 then dma_int_tc_clr base else dma_int_err_clr base)
              bus,
        ))
unfolding dma_wait_int_status
dma_wait_int_status-first base channel [] more round bus quiet loud =
    elim (Bool-cases (bit_of round.0 channel == 1)) [
      | inl tc ↦ rw tc refl
      | inr other ↦ rw (other, error other loud) refl
    ]
  where
    error :
        (bit_of round.0 channel == 1) ≡ false
        → (bit_of round.0 channel ≡ 1) ⊎ (bit_of round.1 channel ≡ 1)
        → (bit_of round.1 channel == 1) ≡ true
    error h k = ground arith
dma_wait_int_status-first base channel (r ∷ rs) more round bus quiet loud =
    rw (quiet.0.0, quiet.0.1)
      (dma_wait_int_status-first base channel rs more round bus quiet.1 loud)
