-- ===== src/Net/Tftp/Store.antt =====
-- The block counters of net/tftp.c, and the store of a block into memory.
use non_os_lite.Prelude.{Buf, copy, if◌then◌else◌, ltb, u32, ℕ, ◌*◌, ◌+◌, ◌==◌}
use non_os_lite.Net.State.{Net, netloop_success}
use non_os_lite.Net.Clock.{get_timer}

-- TFTP_SEQUENCE_SIZE
abbrev pub tftp_sequence_size : ℕ
tftp_sequence_size = 65536

-- `memcpy` stores to `ram`, which the model keeps apart from the globals and the packet buffers: a block
-- that the code would store over these is not seen to change them.
--
-- `store_block(block, src, len)`; `block` is the bit pattern of the `int`.
unfoldable pub store_offset : ℕ → Net → ℕ
store_offset block n = u32 (u32 (block * n.tftp.blk_size) + n.tftp.block_wrap_offset)

unfoldable pub store_block : ℕ → Buf → ℕ → ℕ → Net → Net
store_block block src p len n =
    let offset = store_offset block n in
    let newsize = u32 (offset + len) in
    record n {
      ram = copy n.ram (u32 (n.load_addr + offset)) src p len;
      boot_file_xfer_size =
          if ltb n.boot_file_xfer_size newsize then newsize else n.boot_file_xfer_size;
    }

unfoldable pub new_transfer : Net → Net
new_transfer n = record n {
  tftp = record n.tftp { last_block = 0; block_wrap = 0; block_wrap_offset = 0 };
}

unfoldable pub update_block_number : Net → Net
update_block_number n =
    if n.tftp.block == 0
    then record n {
      tftp = record n.tftp {
        block_wrap = u32 (n.tftp.block_wrap + 1);
        block_wrap_offset =
            u32 (n.tftp.block_wrap_offset + u32 (n.tftp.blk_size * tftp_sequence_size));
        timeout_count = 0;
      };
    }
    else n

unfoldable pub tftp_complete : Net → Net
tftp_complete n =
    let (t, n1) = get_timer n.tftp.start_time n in
    record n1 { tftp = record n1.tftp { start_time = t }; net_state = netloop_success }
