-- ===== src/Net/Tftp/Receive.antt =====
-- `TftpHandler` and `TftpTimeout` of net/tftp.c.
use non_os_lite.Prelude.{
  Bool, Buf, List, [], false, get_be16, if◌then◌else◌, ltb, not, sub32, suc, true, u16, zero, ℕ,
  ◌!=◌, ◌&&◌, ◌+◌, ◌-◌, ◌==◌, ◌||◌, ◌∷◌,
}
use non_os_lite.Clib.Strtoul.{strtoul}
use non_os_lite.Net.State.{
  Net, TftpState, data_state, netloop_fail, oack, recv_wrq, send_rrq, send_wrq, tftp_timeout,
}
use non_os_lite.Net.Send.{net_set_timeout}
use non_os_lite.Net.Tftp.Store.{new_transfer, store_block, tftp_complete, update_block_number}
use non_os_lite.Net.Tftp.Send.{blksize_text, tftp_send}

-- TIMEOUT_COUNT
abbrev pub tftp_timeout_count : ℕ
tftp_timeout_count = 10

-- The bytes of a buffer as a list.
unfoldable pub bytes_from : Buf → ℕ → ℕ → List ℕ
bytes_from m p zero = []
bytes_from m p (suc k) = m p ∷ bytes_from m (p + 1) k

-- `strcmp(m + p, s) == 0`
unfoldable pub text_at : Buf → ℕ → List ℕ → Bool
text_at m p [] = m p == 0
text_at m p (c ∷ cs) = m p == c && text_at m (p + 1) cs

-- PKTSIZE_ALIGN: no number in an option is read further than a receive buffer is long.
abbrev pub pktsize_align : ℕ
pktsize_align = 1536

-- The scan for the option "blksize" from the index `i` on, `rounds` indices.
unfoldable pub oack_loop : Buf → ℕ → ℕ → ℕ → ℕ → ℕ
oack_loop m p zero i blk_size = blk_size
oack_loop m p (suc rounds) i blk_size = oack_loop m p rounds (i + 1) (
    if text_at m (p + i) blksize_text
    then u16 (strtoul (bytes_from m (p + i + 8) pktsize_align) 10).0
    else blk_size)

-- The reply to the options. `len` counts the bytes behind the opcode.
unfoldable pub handle_oack : Buf → ℕ → ℕ → ℕ → Net → Net
handle_oack m p src len n = tftp_send (record n {
  tftp = record n.tftp {
    state = oack;
    remote_port = src;
    blk_size = oack_loop m p (len - 8) 0 n.tftp.blk_size;
  };
})

abbrev pub is_first : TftpState → Bool
is_first send_rrq = true
is_first oack = true
is_first recv_wrq = true
is_first _ = false

-- The block is new: the counters and the timeout are set, it is stored and acknowledged.
unfoldable pub note_block : Net → Net
note_block n =
    let n1 = record n {
      tftp = record n.tftp { last_block = n.tftp.block; timeout_count_max = tftp_timeout_count };
    } in
    net_set_timeout n1.tftp.timeout_msecs tftp_timeout n1

unfoldable pub take_block : Buf → ℕ → ℕ → Net → Net
take_block m p len n =
    let n1 = note_block n in tftp_send (store_block (sub32 n1.tftp.block 1) m p len n1)

-- A short block ends the transfer.
unfoldable pub accept_block : Buf → ℕ → ℕ → Net → Net
accept_block m p len n =
    let n1 = take_block m p len n in if ltb len n1.tftp.blk_size then tftp_complete n1 else n1

-- TFTP_DATA, with the block number at `p`; `len` counts the bytes behind it.
unfoldable pub handle_data : Buf → ℕ → ℕ → ℕ → Net → Net
handle_data m p src len n =
    let n1 = update_block_number (record n { tftp = record n.tftp { block = get_be16 m p } }) in
    let first = is_first n1.tftp.state in
    let n2 =
      if first
      then new_transfer
          (record n1 { tftp = record n1.tftp { state = data_state; remote_port = src } })
      else n1 in
    if first && n2.tftp.block != 1
    then n2
    else if n2.tftp.block == n2.tftp.last_block
    then n2
    else accept_block m (p + 2) len n2

-- TFTP_ERROR: file not found (1) and access denied (2) end the transfer.
unfoldable pub handle_error : Buf → ℕ → Net → Net
handle_error m p n =
    let code = get_be16 m p in
    if code == 1 || code == 2 then record n { net_state = netloop_fail } else n

-- Whether the packet is one of this transfer.
unfoldable pub tftp_accepts : ℕ → ℕ → Net → Bool
tftp_accepts dest src n =
    dest == n.tftp.our_port
    && (src == n.tftp.remote_port
        || elim n.tftp.state [ send_rrq ↦ true | recv_wrq ↦ true | send_wrq ↦ true | _ ↦ false ])

-- `TftpHandler(pkt, dest, sip, src, len)`, the payload at the offset `p` of the frame.
unfoldable pub tftp_receive : Buf → ℕ → ℕ → ℕ → ℕ → Net → Net
tftp_receive m p dest src len n =
    if not (tftp_accepts dest src n) || ltb len 2
    then n
    else let proto = get_be16 m p in
      if proto == 6
      then handle_oack m (p + 2) src (len - 2) n
      else if proto == 3
      then (if ltb (len - 2) 2 then n else handle_data m (p + 2) src (len - 4) n)
      else if proto == 5
      then handle_error m (p + 2) n
      else n

-- `TftpTimeout`
unfoldable pub tftp_timed_out : Net → Net
tftp_timed_out n =
    let n1 = record n { tftp = record n.tftp { timeout_count = n.tftp.timeout_count + 1 } } in
    if ltb n1.tftp.timeout_count_max n1.tftp.timeout_count
    then n1
    else let n2 = net_set_timeout n1.tftp.timeout_msecs tftp_timeout n1 in
      elim n2.tftp.state [ recv_wrq ↦ n2 | _ ↦ tftp_send n2 ]
