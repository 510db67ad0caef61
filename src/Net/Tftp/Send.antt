-- ===== src/Net/Tftp/Send.antt =====
-- `TftpSend` of net/tftp.c.
use non_os_lite.Prelude.{List, [], length, put_list, ℕ, ◌%◌, ◌++◌, ◌+◌, ◌/◌, ◌∷◌}
use non_os_lite.Clib.Decimal.{decimal}
use non_os_lite.Net.State.{
  Net, Tftp, TftpState, bad_magic, data_state, oack, recv_wrq, send_rrq, send_wrq, server_ether,
  too_large,
}
use non_os_lite.Net.Header.{ip_udp_hdr_size, net_eth_hdr_size}
use non_os_lite.Net.Send.{net_send_udp_packet}

abbrev octet : List ℕ
octet = b'o' ∷ b'c' ∷ b't' ∷ b'e' ∷ b't' ∷ 0 ∷ []

abbrev timeout_text : List ℕ
timeout_text = b't' ∷ b'i' ∷ b'm' ∷ b'e' ∷ b'o' ∷ b'u' ∷ b't' ∷ 0 ∷ []

abbrev pub blksize_text : List ℕ
blksize_text = b'b' ∷ b'l' ∷ b'k' ∷ b's' ∷ b'i' ∷ b'z' ∷ b'e' ∷ []

abbrev too_large_text : List ℕ
too_large_text =
    b'F' ∷ b'i' ∷ b'l' ∷ b'e' ∷ b' ' ∷ b't' ∷ b'o' ∷ b'o' ∷ b' ' ∷ b'l' ∷ b'a' ∷ b'r' ∷ b'g' ∷ b'e'
    ∷ 0 ∷ []

abbrev bad_magic_text : List ℕ
bad_magic_text =
    b'F' ∷ b'i' ∷ b'l' ∷ b'e' ∷ b' ' ∷ b'h' ∷ b'a' ∷ b's' ∷ b' ' ∷ b'b' ∷ b'a' ∷ b'd' ∷ b' ' ∷ b'm'
    ∷ b'a' ∷ b'g' ∷ b'i' ∷ b'c' ∷ 0 ∷ []

-- The read request: opcode 1, file name, mode, and the options. The result of the last `sprintf`
-- counts the NUL it ends with, so that this NUL is sent too.
unfoldable pub tftp_request : Tftp → List ℕ
tftp_request t =
    0
    ∷ 1
    ∷ (t.filename
        ++ (0
            ∷ (octet
                ++ (timeout_text
                    ++ (decimal (t.timeout_msecs / 1000)
                        ++ (0
                            ∷ (blksize_text
                                ++ (0 ∷ (decimal t.blk_size_option ++ (0 ∷ 0 ∷ []))))))))))

-- The payload for each state. The acknowledgement is opcode 4 and the block number.
unfoldable pub tftp_payload : Tftp → List ℕ
tftp_payload t = elim t.state [
  | send_rrq ↦ tftp_request t
  | send_wrq ↦ tftp_request t
  | oack ↦ 0 ∷ 4 ∷ t.block / 256 % 256 ∷ t.block % 256 ∷ []
  | recv_wrq ↦ 0 ∷ 4 ∷ t.block / 256 % 256 ∷ t.block % 256 ∷ []
  | data_state ↦ 0 ∷ 4 ∷ t.block / 256 % 256 ∷ t.block % 256 ∷ []
  | too_large ↦ 0 ∷ 5 ∷ 0 ∷ 3 ∷ too_large_text
  | bad_magic ↦ 0 ∷ 5 ∷ 0 ∷ 2 ∷ bad_magic_text
]

-- `sprintf` stores a second NUL behind the one it counts, which is not sent.
abbrev pub spare_nul : TftpState → List ℕ
spare_nul send_rrq = 0 ∷ []
spare_nul send_wrq = 0 ∷ []
spare_nul _ = []

-- The payload in NetTxPacket, behind the place of the headers.
abbrev pub tftp_queue : Net → Net
tftp_queue n = record n {
  tx =
      put_list n.tx (net_eth_hdr_size n + ip_udp_hdr_size)
        (tftp_payload n.tftp ++ spare_nul n.tftp.state);
}

unfoldable pub tftp_send : Net → Net
tftp_send n =
    (net_send_udp_packet server_ether n.tftp.remote_ip n.tftp.remote_port n.tftp.our_port
      (length (tftp_payload n.tftp)) (tftp_queue n)).1
