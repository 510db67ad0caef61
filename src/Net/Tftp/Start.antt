-- ===== src/Net/Tftp/Start.antt =====
-- `TftpStart` of net/tftp.c.
use non_os_lite.Clib.Printf.{hex_digit}
use non_os_lite.Prelude.{
  List, Option, [], false, if◌then◌else◌, none, some, suc, zero, ℕ, ◌%◌, ◌+◌, ◌-◌, ◌/◌, ◌==◌, ◌^◌,
  ◌∷◌,
}
use non_os_lite.Net.State.{Net, null_mac, send_rrq, tftp_handler, tftp_timeout}
use non_os_lite.Net.Clock.{get_timer}
use non_os_lite.Net.Send.{net_set_timeout}
use non_os_lite.Net.Text.{string_to_ip}
use non_os_lite.Net.Tftp.Send.{tftp_send}

-- WELL_KNOWN_PORT, TFTP_BLOCK_SIZE, MAX_LEN
abbrev pub well_known_port : ℕ
well_known_port = 69

abbrev pub tftp_block_size : ℕ
tftp_block_size = 512

abbrev pub max_len : ℕ
max_len = 128

-- `%02X` of a byte.
abbrev pub hex2 : ℕ → List ℕ → List ℕ
hex2 b rest = hex_digit false (b / 16) ∷ hex_digit false (b % 16) ∷ rest

-- "%02X%02X%02X%02X.img" of the bytes of our address.
unfoldable pub default_filename : ℕ → List ℕ
default_filename ip = hex2 (ip % 256) (
    hex2 (ip / 256 % 256)
      (hex2 (ip / 2 ^ 16 % 256) (hex2 (ip / 2 ^ 24 % 256) (b'.' ∷ b'i' ∷ b'm' ∷ b'g' ∷ []))))

-- `strchr(s, ':')`: what stands behind the colon.
unfoldable pub after_colon : List ℕ → Option (List ℕ)
after_colon [] = none
after_colon (c ∷ cs) = let rest = after_colon cs in if c == b':' then some cs else rest

-- `strncpy(dst, src, n)` and a NUL at `n - 1`.
unfoldable pub truncated : ℕ → List ℕ → List ℕ
truncated zero s = []
truncated (suc k) [] = []
truncated (suc k) (c ∷ cs) = c ∷ truncated k cs

-- The server's address and the file's name.
unfoldable pub tftp_target : Net → ℕ × List ℕ
tftp_target n = elim n.boot_file [
  | [] ↦ (n.server_ip, truncated (max_len - 1) (default_filename n.our_ip))
  | c ∷ cs ↦ elim (after_colon n.boot_file) [
    | none ↦ (n.server_ip, truncated (max_len - 1) n.boot_file)
    | some name ↦ (string_to_ip (some n.boot_file), truncated (max_len - 1) name)
  ]
]

-- The state in which the request is sent.
unfoldable pub tftp_begin : Net → Net
tftp_begin n =
    let (remote_ip, filename) = tftp_target n in
    let (t, n1) = get_timer 0 (record n {
      tftp = record n.tftp { remote_ip = remote_ip; filename = filename; state = send_rrq };
    }) in
    let n2 = record n1 {
      tftp = record n1.tftp { start_time = t; timeout_count_max = n1.tftp.rrq_timeout_count_max };
    } in
    let n3 = net_set_timeout n2.tftp.timeout_msecs tftp_timeout n2 in
    let (port_time, n4) = get_timer 0 (record n3 { udp_handler = tftp_handler }) in
    record n4 {
      tftp = record n4.tftp {
        remote_port = well_known_port;
        timeout_count = 0;
        our_port = 1024 + port_time % 3072;
        block = 0;
        blk_size = tftp_block_size;
      };
      server_mac = null_mac;
    }

unfoldable pub tftp_start : Net → Net
tftp_start n = tftp_send (tftp_begin n)
