-- ===== src/Net/Loop/Called.antt =====
-- `NetLoop(TFTPGET)` from its call to its return: what stands in front of the loop, and the download.
use mathlib.Core.Path.{subst}
use non_os_lite.Prelude.{
  List, Option, ap, arith, false, if◌then◌else◌, length, map, none, refl, some, ℕ, ◌*◌, ◌+◌, ◌<◌,
  ◌==◌, ◌^◌, ◌∙◌, ◌∷◌, ◌≡◌, ◌≤◌,
}
use non_os_lite.Net.State.{Device, Frame, Mac, Net, mac_eq, netloop_continue, null_mac, tftpget}
use non_os_lite.Net.Arp.{arp_init}
use non_os_lite.Net.Send.{net_clear_handlers, net_set_timeout}
use non_os_lite.Net.Text.{string_to_ip, string_to_ip_loop}
use non_os_lite.Clib.Strtoul.{strtoul, strtoul_dec}
use non_os_lite.Net.Tftp.Start.{tftp_block_size, tftp_start}
use non_os_lite.Net.Tftp.Transfer.{Loaded}
use non_os_lite.Net.Tftp.File.{Sends}
use non_os_lite.Net.Loop.{
  Outcome, Round, fault, gateway_ip_text, minus_one, net_check_common, net_check_prereq, net_init,
  net_init_loop, net_loop, net_restart, net_rounds, our_ip_text, protocol_start, returned, running,
  server_ip_text, subnet_mask_text,
}
use non_os_lite.Net.Loop.Frames.{AllSend, IsWire, Sending, packet_of, round_of}
use non_os_lite.Net.Loop.Request.{Ready}
use non_os_lite.Net.Loop.Whole.{ReplyFrame, net_rounds-tftp_start, opened_wire, reply_round}

-- The state in which `NetLoop` calls `TftpStart`, with the device `d`.
abbrev pub initialised : Net → Net
initialised n =
    if n.first_call then record (net_clear_handlers (arp_init n)) { first_call = false } else n

abbrev addressed : Device → Net → Net
addressed d n = record n {
  our_ip = string_to_ip (some our_ip_text);
  our_gateway_ip = string_to_ip (some gateway_ip_text);
  our_subnet_mask = string_to_ip (some subnet_mask_text);
  server_ip = string_to_ip (some server_ip_text);
  our_ether = d.enetaddr;
}

abbrev pub entered : Device → Net → Net
entered d n = record (addressed d (initialised n)) {
  net_state = netloop_continue;
  boot_file_xfer_size = 0;
}

our_ip-set : (string_to_ip (some our_ip_text) == 0) ≡ false
unfolding string_to_ip string_to_ip_loop strtoul strtoul_dec
our_ip-set = refl

server_ip-set : (string_to_ip (some server_ip_text) == 0) ≡ false
unfolding string_to_ip string_to_ip_loop strtoul strtoul_dec
server_ip-set = refl

net_init_loop-addressed :
    (d : Device) (n : Net) → n.eth_current ≡ some d → net_init_loop n ≡ some (addressed d n)
unfolding net_init_loop
net_init_loop-addressed d n h = with_device n.eth_current h
  where
    with_device :
        (o : Option Device)
        → o ≡ some d
        → elim o as (λ _. Option Net) [ none ↦ none | some e ↦ some (addressed e n) ]
          ≡ some (addressed d n)
    with_device o e = rw e refl

initialised-device : (n : Net) → (initialised n).eth_current ≡ n.eth_current
unfolding arp_init net_clear_handlers net_set_timeout
initialised-device n = ground arith

initialised-ram : (n : Net) → (initialised n).ram ≡ n.ram
unfolding arp_init net_clear_handlers net_set_timeout
initialised-ram n = ground arith

pub entered-load_addr : (dev : Device) (n : Net) → (entered dev n).load_addr ≡ n.load_addr
unfolding arp_init net_clear_handlers net_set_timeout
entered-load_addr dev n = ground arith

net_check_prereq-addressed :
    (d : Device) (n : Net)
    → mac_eq d.enetaddr null_mac ≡ false
    → net_check_prereq tftpget (addressed d n) ≡ 0
unfolding net_check_prereq net_check_common
net_check_prereq-addressed d n known = rw (server_ip-set, our_ip-set, known) refl

-- From the label `restart` on, with the result of `net_init_loop`.
restarted : Option Net → Outcome
restarted none = fault
restarted (some n1) =
    if net_check_prereq tftpget n1 == 0
    then running (protocol_start tftpget (record n1 { boot_file_xfer_size = 0 }))
    else returned minus_one n1

net_restart-restarted :
    (n : Net)
    → net_restart tftpget n ≡ restarted (net_init_loop (record n { net_state = netloop_continue }))
unfolding net_restart
net_restart-restarted n = cases (net_init_loop (record n { net_state = netloop_continue }))
  where
    cases :
        (o : Option Net)
        → elim o as (λ _. Outcome) [
          | none ↦ fault
          | some n1 ↦
              if net_check_prereq tftpget n1 == 0
              then running (protocol_start tftpget (record n1 { boot_file_xfer_size = 0 }))
              else returned minus_one n1
        ]
          ≡ restarted o
    cases none = unfold restarted in refl
    cases (some n1) = unfold restarted in refl

restarted-addressed :
    (d : Device) (n : Net)
    → mac_eq d.enetaddr null_mac ≡ false
    → restarted (some (addressed d n))
      ≡ running (tftp_start (record (addressed d n) { boot_file_xfer_size = 0 }))
unfolding restarted protocol_start
restarted-addressed d n known = rw (net_check_prereq-addressed d n known) refl

net_restart-entered :
    (d : Device) (n : Net)
    → n.eth_current ≡ some d
    → mac_eq d.enetaddr null_mac ≡ false
    → net_restart tftpget (addressed d n)
      ≡ running (
          tftp_start
            (record (addressed d n) { net_state = netloop_continue; boot_file_xfer_size = 0 }))
net_restart-entered d n h known =
    let again : Net = record (addressed d n) { net_state = netloop_continue } in
    net_restart-restarted (addressed d n)
    ∙ (ap restarted (net_init_loop-addressed d again h) ∙ restarted-addressed d again known)

net_loop-entered :
    (rounds : List Round) (n : Net) (d : Device)
    → n.eth_current ≡ some d
    → mac_eq d.enetaddr null_mac ≡ false
    → net_loop tftpget rounds n ≡ net_rounds tftpget rounds (running (tftp_start (entered d n)))
unfolding net_loop net_init
net_loop-entered rounds n d h known =
    let device = initialised-device n ∙ h in
    from_init (net_init_loop (initialised n)) (net_init_loop-addressed d (initialised n) device)
    ∙ ap (net_rounds tftpget rounds) (net_restart-entered d (initialised n) device known)
  where
    from_init :
        (o : Option Net)
        → o ≡ some (addressed d (initialised n))
        → elim o as (λ _. Outcome) [
          | none ↦ fault
          | some n1 ↦ net_rounds tftpget rounds (net_restart tftpget n1)
        ]
          ≡ net_rounds tftpget rounds (net_restart tftpget (addressed d (initialised n)))
    from_init o e = rw e refl

-- `NetLoop(TFTPGET)` from its call to its return. The machine has a device with an Ethernet address.
-- When the loop begins it is ready: there is no VLAN, the server's address is no broadcast address,
-- and the clock stays within one timeout. In the first round the ARP reply that it waits for
-- arrives. In the following ones arrive the data packets of a file, in blocks of 512 bytes, one
-- frame in each round, the last one short; each frame is as a sender that runs the same
-- `udp_prepare` builds it (an unfragmented IP header of five words with a valid checksum, and no UDP
-- checksum). All blocks at full size fit below 2 ^ 32 from the load address on. Then the call
-- returns the size of the file; the file's bytes stand in memory from the load address on, and every
-- byte outside of them is as it was before.
pub net_loop-download :
    (n : Net) (dev : Device) (span : ℕ) (f : Frame) (sha : Mac) (content : ℕ → ℕ) (sport total : ℕ)
    (xs : List Sending)
    → n.eth_current ≡ some dev
    → mac_eq dev.enetaddr null_mac ≡ false
    → Ready (entered dev n) dev span
    → ReplyFrame f sha (tftp_start (entered dev n))
    → IsWire (opened_wire (entered dev n) dev span sport)
    → AllSend xs
    → Sends content tftp_block_size 0 (map packet_of xs) total
    → tftp_block_size * length xs < 2 ^ 32
    → (entered dev n).load_addr + tftp_block_size * length xs ≤ 2 ^ 32
    → (m : Net) × ((net_loop tftpget
            (reply_round f ∷ map (round_of (opened_wire (entered dev n) dev span sport)) xs)
            n
          ≡ returned total m)
        × Loaded content n.ram (entered dev n).load_addr m.ram total)
net_loop-download n dev span f sha content sport total xs h known ready r ok all s fits room =
    let wire = opened_wire (entered dev n) dev span sport in
    let rest =
      net_rounds-tftp_start (entered dev n) dev span f sha content sport total xs ready r ok all s
        fits room in
    (
      rest.0,
      (
        net_loop-entered (reply_round f ∷ map (round_of wire) xs) n dev h known ∙ rest.1.0,
        subst (λ before. Loaded content before (entered dev n).load_addr rest.0.ram total)
            (initialised-ram n) rest.1.1,
      ),
    )
