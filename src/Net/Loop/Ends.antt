-- ===== src/Net/Loop/Ends.antt =====
-- The rounds of `NetLoop` in which nothing happens.
use non_os_lite.Prelude.{
  Bool, List, [], ap, arith, false, refl, sub32, true, ◌!=◌, ◌&&◌, ◌+◌, ◌<◌, ◌==◌, ◌∙◌, ◌∷◌, ◌≡◌,
  ◌≤◌,
}
use non_os_lite.Net.State.{Net, Proto, netloop_continue, no_handler, tftp_timeout}
use non_os_lite.Net.Loop.{
  Round, after_round, eth_rx, net_round, net_rounds, run_time_handler, running, timeout_check,
}
use non_os_lite.Net.Clock.{get_timer}
use non_os_lite.Net.Arp.{arp_timeout_check}
use non_os_lite.Net.Tftp.Receive.{tftp_timed_out}

-- Rounds without a frame and without the key 'q'.
abbrev pub silent : List Round → Bool
silent [] = true
silent (r ∷ rs) = elim r.frames [ [] ↦ r.key != b'q' && silent rs | f ∷ fs ↦ false ]

silent-round :
    (r : Round) (rs : List Round)
    → silent (r ∷ rs) ≡ true
    → (r.frames ≡ []) × (((r.key == b'q') ≡ false) × (silent rs ≡ true))
silent-round r rs h = ground arith

pub arp_timeout_check-idle : (n : Net) → n.arp.wait_packet_ip ≡ 0 → arp_timeout_check n ≡ n
unfolding arp_timeout_check
arp_timeout_check-idle n h = ground arith

timeout_check-idle : (n : Net) → n.time_handler ≡ no_handler → timeout_check n ≡ n
unfolding timeout_check
timeout_check-idle n h = ground arith

-- A round without a frame and without the key comes down to the tests of the two timeouts.
net_round-timeouts :
    (protocol : Proto) (r : Round) (n m : Net)
    → r.frames ≡ []
    → (r.key == b'q') ≡ false
    → timeout_check (arp_timeout_check n) ≡ m
    → m.net_state ≡ netloop_continue
    → after_round protocol (net_round r n) ≡ running m
unfolding net_round after_round eth_rx
net_round-timeouts protocol r n m empty key checks going =
    rw empty (rw key (rw checks (ground arith)))

net_round-silent :
    (protocol : Proto) (r : Round) (n : Net)
    → r.frames ≡ []
    → (r.key == b'q') ≡ false
    → n.time_handler ≡ no_handler
    → n.arp.wait_packet_ip ≡ 0
    → n.net_state ≡ netloop_continue
    → after_round protocol (net_round r n) ≡ running n
net_round-silent protocol r n empty key no_timer no_arp going =
    net_round-timeouts protocol r n n empty key
      (ap timeout_check (arp_timeout_check-idle n no_arp) ∙ timeout_check-idle n no_timer) going

-- With no timeout armed, no address awaited and no frame arriving, the loop goes round for ever.
net_rounds-silent :
    (protocol : Proto) (rounds : List Round) (n : Net)
    → silent rounds ≡ true
    → n.time_handler ≡ no_handler
    → n.arp.wait_packet_ip ≡ 0
    → n.net_state ≡ netloop_continue
    → net_rounds protocol rounds (running n) ≡ running n
unfolding net_rounds
net_rounds-silent protocol [] n h no_timer no_arp going = refl
net_rounds-silent protocol (r ∷ rs) n h no_timer no_arp going =
    let s = silent-round r rs h in
    rw (net_round-silent protocol r n s.0 s.1.0 no_timer no_arp going)
      (net_rounds-silent protocol rs n s.1.1 no_timer no_arp going)

-- The state of a transfer that has given up.
pub given_up : Net → Net
given_up n = record n {
  reads = n.reads + 1;
  time_handler = no_handler;
  tftp = record n.tftp { timeout_count = n.tftp.timeout_count + 1 };
}

-- The timeout handler's last call.
timeout_check-given_up :
    (n : Net)
    → n.time_handler ≡ tftp_timeout
    → n.tftp.timeout_count_max ≤ n.tftp.timeout_count
    → n.time_delta < sub32 (get_timer 0 n).0 n.time_start
    → timeout_check n ≡ given_up n
unfolding timeout_check tftp_timed_out given_up run_time_handler get_timer
timeout_check-given_up n timer count late = ground arith

-- When the timeout of a transfer fires for the last time that `TftpTimeoutCountMax` allows, while no ARP
-- reply is awaited, and no frame arrives any more, nothing is sent again and the loop does not end:
-- every sequence of rounds without a key 'q' leaves it running.
pub net_rounds-given_up :
    (protocol : Proto) (r : Round) (rounds : List Round) (n : Net)
    → silent (r ∷ rounds) ≡ true
    → n.time_handler ≡ tftp_timeout
    → n.arp.wait_packet_ip ≡ 0
    → n.net_state ≡ netloop_continue
    → n.tftp.timeout_count_max ≤ n.tftp.timeout_count
    → n.time_delta < sub32 (get_timer 0 n).0 n.time_start
    → net_rounds protocol (r ∷ rounds) (running n) ≡ running (given_up n)
unfolding net_rounds given_up
net_rounds-given_up protocol r rounds n h timer no_arp going count late =
    let s = silent-round r rounds h in
    let checks =
      ap timeout_check (arp_timeout_check-idle n no_arp)
      ∙ timeout_check-given_up n timer count late in
    rw (net_round-timeouts protocol r n (given_up n) s.0 s.1.0 checks going)
      (net_rounds-silent protocol rounds (given_up n) s.1.1 refl no_arp going)
