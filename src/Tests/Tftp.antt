-- ===== src/Tests/Tftp.antt =====
-- A download of three bytes in blocks of two.
use non_os_lite.Prelude.{
  Buf, List, [], arith, inl, put8, put_be16, refl, ℕ, ◌%◌, ◌*◌, ◌+◌, ◌-◌, ◌∷◌, ◌≡◌,
}
use non_os_lite.Net.State.{Net, data_state}
use non_os_lite.Net.Sample.{blank, idle, idle_tftp}
use non_os_lite.Net.Tftp.Offset.{wrap_offset}
use non_os_lite.Net.Tftp.Receive.{tftp_receive}
use non_os_lite.Net.Tftp.Duplicate.{renumbered, tftp_receive-duplicate, tftp_receive-duplicate_zero}
use non_os_lite.Net.Tftp.Transfer.{Complete, Holds, InTransfer}
use non_os_lite.Net.Tftp.Download.{Awaiting}
use non_os_lite.Net.Tftp.File.{Packet, Sends, receive_all, receive_all-Complete}

abbrev file : ℕ → ℕ
file i = i + 65

-- Opcode 3, the block number, and the bytes.
abbrev packet : ℕ → ℕ → Buf
packet number first = put8 (put8 (put_be16 (put_be16 blank 42 3) 44 number) 46 first) 47 (first + 1)

abbrev packets : List Packet
packets =
    record { frame = packet 1 65; at = 42; size = 2 }
    ∷ record { frame = packet 2 67; at = 42; size = 1 }
    ∷ []

abbrev asking : Net
asking = record idle { tftp = record idle_tftp { blk_size = 2; our_port = 2000; remote_port = 69 } }

asking-Awaiting : Awaiting file asking.ram 2 0x2000000 2000 1069 asking
asking-Awaiting = record {
  asked = inl refl;
  no_size = refl;
  blk_size = refl;
  our_end = refl;
  load_addr = refl;
  untouched = λ a. refl;
}

first_body : Holds file (packet 1 65) 46 0 2
first_body i h = ground arith

second_body : Holds file (packet 2 67) 46 2 1
second_body i h = ground arith

packets-Sends : Sends file 2 0 packets 3
packets-Sends = (
  record { opcode = refl; number = refl; body = first_body },
  refl,
  (record { opcode = refl; number = refl; body = second_body }, omega arith, refl),
)

receive_all-Complete_example :
    Complete file asking.ram 2 0x2000000 2000 1069 3 (receive_all 2000 1069 packets asking)
receive_all-Complete_example =
    receive_all-Complete file asking.ram 2 0x2000000 2000 1069 packets 3 asking (omega arith)
      asking-Awaiting packets-Sends (omega arith) (omega arith)

-- A transfer of blocks of two bytes in which `k` blocks are in.
abbrev filled : Buf
filled a = a - 0x2000000 + 65

abbrev running_at : ℕ → Net
running_at k = record idle {
  tftp = record idle_tftp {
    state = data_state;
    blk_size = 2;
    our_port = 2000;
    remote_port = 1069;
    last_block = k % 65536;
    block_wrap_offset = wrap_offset 2 k;
  };
  boot_file_xfer_size = 2 * k;
  ram = filled;
}

running_at-InTransfer : (k : ℕ) → InTransfer file filled 2 0x2000000 2000 1069 k (running_at k)
running_at-InTransfer k = record {
  in_data = refl;
  last = refl;
  wrap = refl;
  size = refl;
  blk_size = refl;
  our_end = refl;
  their_end = refl;
  load_addr = refl;
  loaded = (λ i h. omega arith, λ a h. refl);
}

tftp_receive-duplicate_example :
    (tftp_receive (packet 1 65) 42 2000 1069 (2 + 4) (running_at 1)
      ≡ renumbered (1 % 65536) (running_at 1))
    × InTransfer file filled 2 0x2000000 2000 1069 1 (renumbered (1 % 65536) (running_at 1))
tftp_receive-duplicate_example =
    tftp_receive-duplicate file filled 2 0x2000000 2000 1069 (omega arith) 1 (packet 1 65) 42 2
      (running_at 1) (running_at-InTransfer 1) refl refl (λ e. absurd (omega arith))

tftp_receive-duplicate_zero_example :
    ((tftp_receive (packet 0 65) 42 2000 1069 (2 + 4) (running_at 65536)).tftp.block_wrap_offset
      ≡ wrap_offset 2 65536 + 2 * 65536)
    × (¬ InTransfer file filled 2 0x2000000 2000 1069 65536
        (tftp_receive (packet 0 65) 42 2000 1069 (2 + 4) (running_at 65536)))
tftp_receive-duplicate_zero_example =
    tftp_receive-duplicate_zero file filled 2 0x2000000 2000 1069 (omega arith) 65536 (packet 0 65)
      42 2 (running_at 65536) (running_at-InTransfer 65536) refl refl refl (omega arith)
