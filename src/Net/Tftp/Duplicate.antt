-- ===== src/Net/Tftp/Duplicate.antt =====
-- A block that comes a second time.
use mathlib.Core.Path.{ap₂}
use non_os_lite.Prelude.{
  Buf, ap, arith, eq→==, false, get_be16, ltb, ne→==, refl, true, u32, ℕ, ◌%◌, ◌*◌, ◌+◌, ◌-◌, ◌<◌,
  ◌==◌, ◌^◌, ◌∙◌, ◌≡◌, ◌≢◌,
}
use non_os_lite.Net.State.{Net}
use non_os_lite.Net.Tftp.Store.{update_block_number}
use non_os_lite.Net.Tftp.Receive.{handle_data, is_first, tftp_receive}
use non_os_lite.Net.Tftp.Offset.{wrap_offset}
use non_os_lite.Net.Tftp.Transfer.{InTransfer}
use non_os_lite.Net.Tftp.File.{accepted}
use non_os_lite.Net.Tftp.Download.{noted, noted-last}

-- The transfer with the number of the duplicate noted.
abbrev pub renumbered : ℕ → Net → Net
renumbered number n = record n { tftp = record n.tftp { block = number } }

noted-nonzero :
    (m : Buf) (p number : ℕ) (n : Net)
    → get_be16 m p ≡ number
    → number ≢ 0
    → noted m p n ≡ renumbered number n
unfolding update_block_number
noted-nonzero m p number n is_number nonzero = rw (is_number, ne→== number 0 nonzero) refl

module _ (content : ℕ → ℕ) (before : Buf) (blk la dport sport : ℕ) (pos : 0 < blk) where
  handle_data-noted :
      (k : ℕ) (m : Buf) (p len : ℕ) (n : Net)
      → InTransfer content before blk la dport sport k n
      → get_be16 m p ≡ k % 65536
      → handle_data m p sport len n ≡ noted m p n
  unfolding handle_data
  handle_data-noted k m p len n t number =
      let (same_last, same_state, same_block, _) =
        noted-last content before blk la dport sport m p n in
      let running : is_first (noted m p n).tftp.state ≡ false = rw (same_state ∙ t.in_data) in
      let again : ((noted m p n).tftp.block == (noted m p n).tftp.last_block) ≡ true =
        rw (same_block ∙ number, same_last ∙ t.last) (eq→== (k % 65536) (k % 65536) refl) in
      rw running (rw again refl)

  tftp_receive-noted :
      (k : ℕ) (m : Buf) (p len : ℕ) (n : Net)
      → InTransfer content before blk la dport sport k n
      → get_be16 m p ≡ 3
      → get_be16 m (p + 2) ≡ k % 65536
      → tftp_receive m p dport sport (len + 4) n ≡ noted m (p + 2) n
  unfolding tftp_receive
  tftp_receive-noted k m p len n t opcode number =
      let ok = accepted content before blk la dport sport pos n t.our_end t.their_end in
      let long : ltb (len + 4) 2 ≡ false = ground arith in
      let longer : ltb (len + 4 - 2) 2 ≡ false = ground arith in
      let rest : len + 4 - 4 ≡ len = omega arith in
      rw (ok, long, opcode, longer, rest) (handle_data-noted k m (p + 2) len n t number)

  -- In a running transfer, a data packet with the number of the last block, unless that is 0, leaves
  -- memory, the transferred size, the timeout and the frames sent as they were, and the transfer where
  -- it was: it is not acknowledged again.
  pub tftp_receive-duplicate :
      (k : ℕ) (m : Buf) (p len : ℕ) (n : Net)
      → InTransfer content before blk la dport sport k n
      → get_be16 m p ≡ 3
      → get_be16 m (p + 2) ≡ k % 65536
      → k % 65536 ≢ 0
      → (tftp_receive m p dport sport (len + 4) n ≡ renumbered (k % 65536) n)
        × InTransfer content before blk la dport sport k (renumbered (k % 65536) n)
  tftp_receive-duplicate k m p len n t opcode number nonzero = (
    tftp_receive-noted k m p len n t opcode number
        ∙ noted-nonzero m (p + 2) (k % 65536) n number nonzero,
    record {
      in_data = t.in_data;
      last = t.last;
      wrap = t.wrap;
      size = t.size;
      blk_size = t.blk_size;
      our_end = t.our_end;
      their_end = t.their_end;
      load_addr = t.load_addr;
      loaded = t.loaded;
    },
  )

  noted-zero :
      (m : Buf) (p : ℕ) (n : Net)
      → get_be16 m p ≡ 0
      → (noted m p n).tftp.block_wrap_offset
        ≡ u32 (n.tftp.block_wrap_offset + u32 (n.tftp.blk_size * 65536))
  unfolding update_block_number
  noted-zero m p n zero_number = rw zero_number refl

  -- If the number of the last block is 0, a second data packet with that number moves the offset at
  -- which the following blocks are stored by 65536 blocks, so that the transfer is no longer where it
  -- was: the next block would be stored elsewhere. The offset has not wrapped around in 32 bits.
  pub tftp_receive-duplicate_zero :
      (k : ℕ) (m : Buf) (p len : ℕ) (n : Net)
      → InTransfer content before blk la dport sport k n
      → get_be16 m p ≡ 3
      → get_be16 m (p + 2) ≡ k % 65536
      → k % 65536 ≡ 0
      → wrap_offset blk k + blk * 65536 < 2 ^ 32
      → ((tftp_receive m p dport sport (len + 4) n).tftp.block_wrap_offset
          ≡ wrap_offset blk k + blk * 65536)
        × (¬ InTransfer content before blk la dport sport k
            (tftp_receive m p dport sport (len + 4) n))
  tftp_receive-duplicate_zero k m p len n t opcode number last_zero small =
      let after = tftp_receive-noted k m p len n t opcode number in
      let moved : u32 (wrap_offset blk k + u32 (blk * 65536)) ≡ wrap_offset blk k + blk * 65536 =
        omega (arith, small) in
      let offset =
        ap (λ (r : Net). r.tftp.block_wrap_offset) after
        ∙ (noted-zero m (p + 2) n (number ∙ last_zero)
            ∙ (ap₂ (λ o b. u32 (o + u32 (b * 65536))) t.wrap t.blk_size ∙ moved)) in
      (offset, λ still. absurd (omega (arith, offset, still.wrap, pos)))
