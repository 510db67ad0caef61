-- ===== src/Net/Tftp/Download.antt =====
-- The data packets of a TFTP download, as `TftpHandler` of net/tftp.c handles them.
use mathlib.Core.Path.{ap₂}
use non_os_lite.Prelude.{
  Bool-cases, Buf, arith, false, get_be16, inl, inr, ne→==, refl, suc, true, u32, ℕ, ◌%◌, ◌*◌, ◌+◌,
  ◌<◌, ◌==◌, ◌^◌, ◌∙◌, ◌≡◌, ◌≢◌, ◌⊎◌,
}
use non_os_lite.Net.State.{Net, data_state, oack, send_rrq}
use non_os_lite.Net.Tftp.Store.{new_transfer, update_block_number}
use non_os_lite.Net.Tftp.Receive.{accept_block, handle_data, is_first}
use non_os_lite.Net.Tftp.Offset.{wrap_offset-same, wrap_offset-suc}
use non_os_lite.Net.Tftp.Transfer.{Announced, InTransfer}

-- The state with the number of the packet noted.
abbrev pub noted : Buf → ℕ → Net → Net
noted m p n = update_block_number (record n { tftp = record n.tftp { block = get_be16 m p } })

abbrev pub begun : ℕ → Net → Net
begun src n =
    new_transfer (record n { tftp = record n.tftp { state = data_state; remote_port = src } })

module _ (content : ℕ → ℕ) (before : Buf) (blk la dport sport : ℕ) where
  -- The request is out, and the first block is awaited.
  pub record Awaiting (n : Net) : Type 0 where
    pub asked : (n.tftp.state ≡ send_rrq) ⊎ ((n.tftp.state ≡ oack) × (n.tftp.remote_port ≡ sport))
    pub no_size : n.boot_file_xfer_size ≡ 0
    pub blk_size : n.tftp.blk_size ≡ blk
    pub our_end : n.tftp.our_port ≡ dport
    pub load_addr : n.load_addr ≡ la
    pub untouched : (a : ℕ) → n.ram a ≡ before a

  pub noted-Announced :
      (k : ℕ) (m : Buf) (p : ℕ) (n : Net)
      → InTransfer content before blk la dport sport k n
      → get_be16 m p ≡ suc k % 65536
      → blk * suc k < 2 ^ 32
      → Announced content before blk la dport sport k (noted m p n)
  unfolding update_block_number
  noted-Announced k m p n t number fits = elim (Bool-cases (get_be16 m p == 0)) [
    | inl z ↦
        let at_wrap : suc k % 65536 ≡ 0 = ground arith in
        rw z (record {
          in_data = t.in_data;
          block = number;
          wrap =
              ap₂ (λ o b. u32 (o + u32 (b * 65536))) t.wrap t.blk_size
              ∙ wrap_offset-suc blk k at_wrap fits;
          size = t.size;
          blk_size = t.blk_size;
          our_end = t.our_end;
          their_end = t.their_end;
          load_addr = t.load_addr;
          loaded = t.loaded;
        })
    | inr nz ↦
        let no_wrap : suc k % 65536 ≢ 0 = ground arith in
        rw nz (record {
          in_data = t.in_data;
          block = number;
          wrap = t.wrap ∙ wrap_offset-same blk k no_wrap;
          size = t.size;
          blk_size = t.blk_size;
          our_end = t.our_end;
          their_end = t.their_end;
          load_addr = t.load_addr;
          loaded = t.loaded;
        })
  ]

  pub noted-last :
      (m : Buf) (p : ℕ) (n : Net)
      → ((noted m p n).tftp.last_block ≡ n.tftp.last_block)
        × ((noted m p n).tftp.state ≡ n.tftp.state)
        × ((noted m p n).tftp.block ≡ get_be16 m p)
        × ((noted m p n).net_state ≡ n.net_state)
  unfolding update_block_number
  noted-last m p n = ground arith

  -- In a running transfer the next block is accepted.
  pub handle_data-next :
      (k : ℕ) (m : Buf) (p len : ℕ) (n : Net)
      → InTransfer content before blk la dport sport k n
      → get_be16 m p ≡ suc k % 65536
      → handle_data m p sport len n ≡ accept_block m (p + 2) len (noted m p n)
  unfolding handle_data
  handle_data-next k m p len n t number =
      let (same_last, same_state, same_block, _) = noted-last m p n in
      let running : is_first (noted m p n).tftp.state ≡ false = rw (same_state ∙ t.in_data) in
      let fresh : ((noted m p n).tftp.block == (noted m p n).tftp.last_block) ≡ false =
        rw (same_block ∙ number, same_last ∙ t.last)
          (ne→== (suc k % 65536) (k % 65536) (omega arith)) in
      rw running (rw fresh)

  pub begun-Announced :
      (m : Buf) (p : ℕ) (n : Net)
      → Awaiting n
      → get_be16 m p ≡ 1
      → Announced content before blk la dport sport 0 (begun sport (noted m p n))
  unfolding new_transfer update_block_number
  begun-Announced m p n w number =
      let some_block : (get_be16 m p == 0) ≡ false = ground arith in
      rw some_block (record {
        in_data = refl;
        block = number;
        wrap = omega arith;
        size = omega (arith, w.no_size);
        blk_size = w.blk_size;
        our_end = w.our_end;
        their_end = refl;
        load_addr = w.load_addr;
        loaded = (λ i h. absurd (omega arith), λ a h. w.untouched a);
      })

  -- The first block opens the transfer.
  pub handle_data-first :
      (m : Buf) (p len : ℕ) (n : Net)
      → Awaiting n
      → get_be16 m p ≡ 1
      → handle_data m p sport len n ≡ accept_block m (p + 2) len (begun sport (noted m p n))
  unfolding handle_data
  handle_data-first m p len n w number =
      let (_, same_state, same_block, _) = noted-last m p n in
      let opening : is_first (noted m p n).tftp.state ≡ true = elim w.asked [
        | inl e ↦ rw (same_state ∙ e)
        | inr e ↦ rw (same_state ∙ e.0)
      ] in
      let one : (begun sport (noted m p n)).tftp.block ≡ 1 =
        unfold new_transfer in same_block ∙ number in
      let zero_last : (begun sport (noted m p n)).tftp.last_block ≡ 0 =
        unfold new_transfer in refl in
      rw opening (rw (one, zero_last))
