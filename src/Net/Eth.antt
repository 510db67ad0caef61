-- ===== src/Net/Eth.antt =====
-- net/eth.c, the calls of the current device, and `NetSendPacket` of include/net_core.h.
pub mod Filename
use non_os_lite.Prelude.{
  Bool, Buf, List, Option, [], false, if◌then◌else◌, length, ltb, none, some, suc, true, zero, ℕ,
  ◌-◌, ◌==◌, ◌||◌, ◌∷◌,
}
use non_os_lite.Net.State.{Device, Net, init}

-- Returns -1 (`none`) with no device; otherwise the frame goes to the driver.
unfoldable pub eth_send : Buf → ℕ → Net → Net
eth_send packet length n = elim n.eth_current [
  | none ↦ n
  | some d ↦ record n { sent = record { size = length; bytes = packet } ∷ n.sent }
]

unfoldable pub net_send_packet : Buf → ℕ → Net → Net
net_send_packet pkt len n = eth_send pkt (if ltb len 64 then 64 else len) n

unfoldable pub eth_register : Device → Net → Net
eth_register dev n = record n {
  eth_current = elim n.eth_current [
    | none ↦ some (record dev { device_state = init })
    | some d ↦ some d
  ];
}

-- The result: `false` is the -1 of the code.
unfoldable pub eth_unregister : Net → Bool
eth_unregister n = elim n.eth_current [ none ↦ false | some d ↦ true ]

-- `copy_filename` of net_core.c at the bytes of a C string: the bytes stored before the final NUL.
unfoldable pub copy_filename_loop : ℕ → List ℕ → List ℕ
copy_filename_loop size [] = []
copy_filename_loop zero (c ∷ cs) = []
copy_filename_loop (suc size) (c ∷ cs) =
    let rest = copy_filename_loop size cs in if c == b'"' || size == 0 then [] else c ∷ rest

unfoldable pub copy_filename : List ℕ → ℕ → List ℕ
copy_filename [] size = []
copy_filename (c ∷ cs) size =
    if c == b'"' then copy_filename_loop (size - 1) cs else copy_filename_loop size (c ∷ cs)

-- sizeof(BootFile)
abbrev pub boot_file_len : ℕ
boot_file_len = 128

abbrev pub zimage : List ℕ
zimage = b'z' ∷ b'I' ∷ b'm' ∷ b'a' ∷ b'g' ∷ b'e' ∷ []

unfoldable pub eth_env_init : Option (List ℕ) → Net → Net
eth_env_init none n = record n { boot_file = copy_filename zimage boot_file_len }
eth_env_init (some f) n = record n { boot_file = copy_filename f boot_file_len }

-- What a board's `board_eth_init` does, a function that is not under the repository's sources: it is
-- not there, it fails, or it registers a device (or none) and returns 0.
pub data BoardEthInit : Type 0 where
  absent failing : BoardEthInit
  registers : Option Device → BoardEthInit

unfoldable pub eth_initialize : BoardEthInit → Option (List ℕ) → Net → ℕ × Net
eth_initialize board filename n =
    let n1 = eth_env_init filename (record n { eth_current = none }) in
    elim board [
      | absent ↦ (0, n1)
      | failing ↦ (0, n1)
      | registers none ↦ (1, n1)
      | registers (some d) ↦ (1, eth_register d n1)
    ]
