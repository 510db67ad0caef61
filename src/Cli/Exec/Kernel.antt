-- ===== src/Cli/Exec/Kernel.antt =====
-- `tftpboot` from the command to the entry of the kernel.
use mathlib.Core.Path.{subst}
use non_os_lite.Prelude.{
  List, [], ap, arith, false, leb, length, map, none, refl, some, ℕ, ◌*◌, ◌+◌, ◌<◌, ◌^◌, ◌∙◌, ◌∷◌,
  ◌≡◌, ◌≤◌,
}
use non_os_lite.Clib.Strtoul.{strtoul}
use non_os_lite.Net.State.{Device, Frame, Mac, Net, init, mac_eq, null_mac, tftpget}
use non_os_lite.Net.Eth.{eth_env_init, eth_initialize, eth_register, registers}
use non_os_lite.Net.Tftp.Start.{tftp_block_size, tftp_start}
use non_os_lite.Net.Tftp.Transfer.{Loaded}
use non_os_lite.Net.Tftp.File.{Sends}
use non_os_lite.Net.Loop.{net_loop, returned}
use non_os_lite.Net.Loop.Frames.{AllSend, IsWire, Sending, packet_of, round_of}
use non_os_lite.Net.Loop.Request.{Ready}
use non_os_lite.Net.Loop.Whole.{ReplyFrame, opened_wire, reply_round}
use non_os_lite.Net.Loop.Keeping.{Ends}
use non_os_lite.Net.Loop.Called.{entered, entered-load_addr, net_loop-download}
use non_os_lite.Net.Loop.Entry.{net_loop-load_addr}
use non_os_lite.Cli.Exec.Run.{Host, Shell, after_download, booted, do_tftpboot, tftpboot_options}

-- The load address that the arguments behind the file name ask for.
abbrev pub asked_address : List (List ℕ) → ℕ → ℕ
asked_address (addr ∷ []) la = (strtoul addr 16).0
asked_address _ la = la

tftpboot_options-load_addr :
    (rest : List (List ℕ)) (n : Net)
    → (tftpboot_options rest n).load_addr ≡ asked_address rest n.load_addr
unfolding tftpboot_options
tftpboot_options-load_addr [] n = refl
tftpboot_options-load_addr (a ∷ []) n = refl
tftpboot_options-load_addr (a ∷ b ∷ []) n = refl
tftpboot_options-load_addr (a ∷ b ∷ c ∷ cs) n = refl

tftpboot_options-ram : (rest : List (List ℕ)) (n : Net) → (tftpboot_options rest n).ram ≡ n.ram
unfolding tftpboot_options
tftpboot_options-ram [] n = refl
tftpboot_options-ram (a ∷ []) n = refl
tftpboot_options-ram (a ∷ b ∷ []) n = refl
tftpboot_options-ram (a ∷ b ∷ c ∷ cs) n = refl

-- The device as `eth_register` leaves it, and the state in which `do_tftpboot` calls `NetLoop`.
abbrev pub registered : Device → Device
registered dev = record dev { device_state = init }

abbrev pub called : Device → List ℕ → List (List ℕ) → Net → Net
called dev filename rest n =
    record (eth_env_init (some filename)
      (record (tftpboot_options rest n) { eth_current = none })) {
        eth_current = some (registered dev);
      }

do_tftpboot-called :
    (h : Host) (dev : Device) (filename : List ℕ) (rest : List (List ℕ)) (s : Shell)
    → h.board ≡ registers (some dev)
    → do_tftpboot h (filename ∷ rest) s
      ≡ after_download s (net_loop tftpget h.rounds (called dev filename rest s.net))
unfolding do_tftpboot eth_initialize eth_register eth_env_init
do_tftpboot-called h dev filename rest s there = rw there refl

called-load_addr :
    (dev : Device) (filename : List ℕ) (rest : List (List ℕ)) (n : Net)
    → (called dev filename rest n).load_addr ≡ asked_address rest n.load_addr
unfolding eth_env_init
called-load_addr dev filename rest n = tftpboot_options-load_addr rest n

called-ram :
    (dev : Device) (filename : List ℕ) (rest : List (List ℕ)) (n : Net)
    → (called dev filename rest n).ram ≡ n.ram
unfolding eth_env_init
called-ram dev filename rest n = tftpboot_options-ram rest n

after_download-booted :
    (s : Shell) (n : Net) (total : ℕ)
    → total < 2 ^ 31
    → after_download s (returned total n) ≡ booted n.load_addr (record s { net = n })
unfolding after_download
after_download-booted s n total small =
    let no_error : leb (2 ^ 31) total ≡ false = ground (arith, small) in rw no_error refl

-- `tftpboot` with a file name. A device with an Ethernet address registers, and when `NetLoop` has called
-- `NetInit` it is ready. In the first round arrives the ARP reply, and in the following ones the data
-- packets of a file of less than 2 ^ 31 bytes, as in the download of `NetLoop`. Then the command enters
-- the kernel, at the address that its one argument behind the file name says in base 16 (with no further
-- argument, or more than one, at the load address that was set before); the file's bytes stand in memory
-- from that address on, and every byte outside of them is as it was before the command.
pub do_tftpboot-download :
    (h : Host) (dev : Device) (filename : List ℕ) (rest : List (List ℕ)) (s : Shell) (span : ℕ)
    (f : Frame) (sha : Mac) (content : ℕ → ℕ) (sport total : ℕ) (xs : List Sending)
    → let n = entered (registered dev) (called dev filename rest s.net) in
      h.board ≡ registers (some dev)
      → h.rounds ≡ reply_round f ∷ map (round_of (opened_wire n (registered dev) span sport)) xs
      → mac_eq dev.enetaddr null_mac ≡ false
      → Ready n (registered dev) span
      → ReplyFrame f sha (tftp_start n)
      → IsWire (opened_wire n (registered dev) span sport)
      → AllSend xs
      → Sends content tftp_block_size 0 (map packet_of xs) total
      → total < 2 ^ 31
      → tftp_block_size * length xs < 2 ^ 32
      → n.load_addr + tftp_block_size * length xs ≤ 2 ^ 32
      → (m : Net) × ((do_tftpboot h (filename ∷ rest) s
            ≡ booted (asked_address rest s.net.load_addr) (record s { net = m }))
          × Loaded content s.net.ram (asked_address rest s.net.load_addr) m.ram total)
do_tftpboot-download h dev filename rest s span f sha content sport total xs there rounds known
      ready r ok all sends small fits room =
    let n = called dev filename rest s.net in
    let got =
      net_loop-download n (registered dev) span f sha content sport total xs refl known ready r ok
        all sends fits room in
    let ends : net_loop tftpget h.rounds n ≡ returned total got.0 =
      ap (λ l. net_loop tftpget l n) rounds ∙ got.1.0 in
    let address : n.load_addr ≡ asked_address rest s.net.load_addr =
      called-load_addr dev filename rest s.net in
    let kept : got.0.load_addr ≡ n.load_addr =
      subst (Ends (λ m. m.load_addr ≡ n.load_addr)) ends (net_loop-load_addr tftpget h.rounds n) in
    (
      got.0,
      (
        do_tftpboot-called h dev filename rest s there
            ∙ (ap (after_download s) ends
                ∙ (after_download-booted s got.0 total small
                    ∙ ap (λ a. booted a (record s { net = got.0 })) (kept ∙ address))),
        subst (λ before. Loaded content before (asked_address rest s.net.load_addr) got.0.ram total)
            (called-ram dev filename rest s.net)
            (subst (λ la. Loaded content n.ram la got.0.ram total)
              (entered-load_addr (registered dev) n ∙ address) got.1.1),
      ),
    )
