-- ===== src/Net/Loop.antt =====
-- `NetLoop` of net/net_core.c. What the environment does in a round of the loop is an input: the frames
-- that the driver passes to `NetReceive` when `eth_rx` polls it, and the key that was pressed.
pub mod Ends
pub mod Timeouts
pub mod Errors
pub mod Live
pub mod Keeping
pub mod Inert
pub mod Entry
pub mod Frames
pub mod Steps
pub mod Download
pub mod Opening
pub mod Request
pub mod Whole
pub mod Called
use non_os_lite.Prelude.{
  List, Option, [], false, if◌then◌else◌, ltb, none, some, sub32, ℕ, ◌==◌, ◌∷◌,
}
use non_os_lite.Net.State.{
  Frame, Net, Proto, TimeHandler, mac_eq, netloop_continue, netloop_fail, netloop_restart,
  netloop_success, no_handler, null_mac, other_proto, ping, ping_timeout, tftp_timeout, tftpget,
  tftpput,
}
use non_os_lite.Net.Clock.{get_timer}
use non_os_lite.Net.Send.{net_clear_handlers}
use non_os_lite.Net.Arp.{arp_init, arp_timeout_check}
use non_os_lite.Net.Text.{string_to_ip}
use non_os_lite.Net.Ping.{ping_start}
use non_os_lite.Net.Tftp.Start.{tftp_start}
use non_os_lite.Net.Tftp.Receive.{tftp_timed_out}
use non_os_lite.Net.Receive.{net_receive}

pub record Round : Type 0 where
  pub frames : List Frame
  pub key : ℕ

-- The value that `NetLoop` returns, as the bit pattern of an `int`; or the rounds ran out; or a read
-- through the NULL pointer `eth_current`.
pub data Outcome : Type 0 where
  returned : ℕ → Net → Outcome
  running : Net → Outcome
  fault : Outcome

abbrev pub minus_one : ℕ
minus_one = 0xffffffff

-- "10.0.0.179", "10.0.0.254", "255.255.255.0" and "10.0.0.128"
abbrev pub our_ip_text : List ℕ
our_ip_text = b'1' ∷ b'0' ∷ b'.' ∷ b'0' ∷ b'.' ∷ b'0' ∷ b'.' ∷ b'1' ∷ b'7' ∷ b'9' ∷ []

abbrev pub gateway_ip_text : List ℕ
gateway_ip_text = b'1' ∷ b'0' ∷ b'.' ∷ b'0' ∷ b'.' ∷ b'0' ∷ b'.' ∷ b'2' ∷ b'5' ∷ b'4' ∷ []

abbrev pub subnet_mask_text : List ℕ
subnet_mask_text =
    b'2' ∷ b'5' ∷ b'5' ∷ b'.' ∷ b'2' ∷ b'5' ∷ b'5' ∷ b'.' ∷ b'2' ∷ b'5' ∷ b'5' ∷ b'.' ∷ b'0' ∷ []

abbrev pub server_ip_text : List ℕ
server_ip_text = b'1' ∷ b'0' ∷ b'.' ∷ b'0' ∷ b'.' ∷ b'0' ∷ b'.' ∷ b'1' ∷ b'2' ∷ b'8' ∷ []

unfoldable pub net_init_loop : Net → Option Net
net_init_loop n = elim n.eth_current [
  | none ↦ none
  | some d ↦ some (record n {
    our_ip = string_to_ip (some our_ip_text);
    our_gateway_ip = string_to_ip (some gateway_ip_text);
    our_subnet_mask = string_to_ip (some subnet_mask_text);
    server_ip = string_to_ip (some server_ip_text);
    our_ether = d.enetaddr;
  })
]

unfoldable pub net_init : Net → Option Net
net_init n =
    net_init_loop
      (if n.first_call then record (net_clear_handlers (arp_init n)) { first_call = false } else n)

-- 0 if the protocol can start; 1 for a missing IP address, 2 for a missing Ethernet address.
unfoldable pub net_check_common : Net → ℕ
net_check_common n = if n.our_ip == 0 then 1 else if mac_eq n.our_ether null_mac then 2 else 0

unfoldable pub net_check_prereq : Proto → Net → ℕ
net_check_prereq ping n = if n.ping_ip == 0 then 1 else net_check_common n
net_check_prereq tftpget n = if n.server_ip == 0 then 1 else net_check_common n
net_check_prereq tftpput n = if n.server_ip == 0 then 1 else net_check_common n
net_check_prereq (other_proto k) n = 0

unfoldable pub protocol_start : Proto → Net → Net
protocol_start tftpget n = tftp_start n
protocol_start ping n = ping_start n
protocol_start _ n = n

-- From the label `restart` to the loop: `some` the state in which the loop begins, or the return.
unfoldable pub net_restart : Proto → Net → Outcome
net_restart protocol n = elim (net_init_loop (record n { net_state = netloop_continue })) [
  | none ↦ fault
  | some n1 ↦
      if net_check_prereq protocol n1 == 0
      then running (protocol_start protocol (record n1 { boot_file_xfer_size = 0 }))
      else returned minus_one n1
]

unfoldable pub eth_rx : List Frame → Net → Net
eth_rx [] n = n
eth_rx (f ∷ fs) n =
    eth_rx fs (elim n.eth_current [ none ↦ n | some d ↦ net_receive f.bytes f.size n ])

-- The timeout handler runs once, when its time has come.
unfoldable pub run_time_handler : TimeHandler → Net → Net
run_time_handler no_handler n = n
run_time_handler tftp_timeout n = tftp_timed_out n
run_time_handler ping_timeout n = record n { net_state = netloop_fail }

unfoldable pub timeout_check : Net → Net
timeout_check n = elim n.time_handler [
  | no_handler ↦ n
  | h ↦
      let (t, n1) = get_timer 0 n in
      if ltb n1.time_delta (sub32 t n1.time_start)
      then run_time_handler h (record n1 { time_handler = no_handler })
      else n1
]

-- One round: the state after it, the return, or a restart (`running` under NETLOOP_RESTART).
unfoldable pub net_round : Round → Net → Outcome
net_round r n =
    let n1 = eth_rx r.frames n in
    if r.key == b'q'
    then returned minus_one
        (net_clear_handlers (record n1 { arp = record n1.arp { wait_packet_ip = 0 } }))
    else let n2 = timeout_check (arp_timeout_check n1) in
      elim n2.net_state [
        | netloop_success ↦ let n3 = net_clear_handlers n2 in returned n3.boot_file_xfer_size n3
        | netloop_fail ↦ returned minus_one (net_clear_handlers n2)
        | netloop_restart ↦ running n2
        | netloop_continue ↦ running n2
      ]

unfoldable pub after_round : Proto → Outcome → Outcome
after_round protocol (running n) = elim n.net_state [
  | netloop_restart ↦ net_restart protocol n
  | _ ↦ running n
]
after_round protocol (returned k n) = returned k n
after_round protocol fault = fault

unfoldable pub net_rounds : Proto → List Round → Outcome → Outcome
net_rounds protocol [] o = o
net_rounds protocol (r ∷ rs) (running n) =
    net_rounds protocol rs (after_round protocol (net_round r n))
net_rounds protocol (r ∷ rs) (returned k n) = returned k n
net_rounds protocol (r ∷ rs) fault = fault

unfoldable pub net_loop : Proto → List Round → Net → Outcome
net_loop protocol rounds n = elim (net_init n) [
  | none ↦ fault
  | some n1 ↦ net_rounds protocol rounds (net_restart protocol n1)
]
