-- ===== src/Net/Loop/Errors.antt =====
-- How `NetLoop` ends when a transfer fails.
use non_os_lite.Prelude.{
  Bool, Bool-cases, Buf, Option, [], ap, arith, false, get_be16, if◌then◌else◌, inl, inr, ltb, none,
  refl, some, true, ℕ, ◌+◌, ◌<◌, ◌==◌, ◌∙◌, ◌∷◌, ◌≡◌, ◌≤◌, ◌⊎◌,
}
use non_os_lite.Net.State.{
  Device, Frame, Mac, Net, TftpState, TimeHandler, netloop_fail, no_handler, ping_timeout, recv_wrq,
  send_rrq, tftp_timeout,
}
use non_os_lite.Net.Clock.{get_timer}
use non_os_lite.Net.Keeps.{arp_request-Keeps, net_set_timeout-Keeps, tftp_send-Keeps}
use non_os_lite.Net.Send.{net_clear_handlers, net_set_timeout}
use non_os_lite.Net.Arp.{arp_retry, arp_timeout_check}
use non_os_lite.Net.Tftp.Send.{tftp_send}
use non_os_lite.Net.Tftp.Receive.{handle_error, tftp_accepts, tftp_receive, tftp_timed_out}
use non_os_lite.Net.Receive.{net_receive}
use non_os_lite.Net.Delivery.Link.{Linked, frame_to, net_receive-udp_prepare}
use non_os_lite.Net.Loop.{
  Round, eth_rx, minus_one, net_round, returned, run_time_handler, timeout_check,
}

arp_retry-net_state : (t : ℕ) (n : Net) → (arp_retry t n).net_state ≡ n.net_state
unfolding arp_retry
arp_retry-net_state t n = ground (
  arith,
  (arp_request-Keeps (record n {
    arp = record n.arp { wait_try = n.arp.wait_try + 1; wait_timer_start = t };
  })).same_net_state,
)

pub arp_timeout_check-net_state : (n : Net) → (arp_timeout_check n).net_state ≡ n.net_state
unfolding arp_timeout_check get_timer
arp_timeout_check-net_state n = grind (arith, arp_retry-net_state)

if-net_state :
    (b : Bool) (x y n : Net)
    → x.net_state ≡ n.net_state
    → y.net_state ≡ n.net_state
    → (if b then x else y).net_state ≡ n.net_state
if-net_state true x y n p q = p
if-net_state false x y n p q = q

resend-net_state :
    (n : Net) (s : TftpState)
    → (elim s as (λ x. Net) [ recv_wrq ↦ n | _ ↦ tftp_send n ]).net_state ≡ n.net_state
resend-net_state n s = ground (arith, (tftp_send-Keeps n).same_net_state)

pub tftp_timed_out-net_state : (n : Net) → (tftp_timed_out n).net_state ≡ n.net_state
unfolding tftp_timed_out
tftp_timed_out-net_state n =
    let n1 : Net = record n { tftp = record n.tftp { timeout_count = n.tftp.timeout_count + 1 } } in
    let n2 = net_set_timeout n1.tftp.timeout_msecs tftp_timeout n1 in
    if-net_state (ltb n1.tftp.timeout_count_max n1.tftp.timeout_count) n1 _ n refl (
      resend-net_state n2 n2.tftp.state
      ∙ (net_set_timeout-Keeps n1.tftp.timeout_msecs tftp_timeout n1).same_net_state)

run_time_handler-fail :
    (h : TimeHandler) (n : Net)
    → n.net_state ≡ netloop_fail
    → (run_time_handler h n).net_state ≡ netloop_fail
unfolding run_time_handler
run_time_handler-fail no_handler n h = h
run_time_handler-fail tftp_timeout n h = tftp_timed_out-net_state n ∙ h
run_time_handler-fail ping_timeout n h = refl

timeout_check-fail :
    (n : Net) → n.net_state ≡ netloop_fail → (timeout_check n).net_state ≡ netloop_fail
unfolding timeout_check get_timer
timeout_check-fail n h = grind (arith, run_time_handler-fail)

-- Whatever key is pressed, a round in which a frame has set the state to failed returns -1.
pub net_round-fail :
    (r : Round) (n : Net)
    → (eth_rx r.frames n).net_state ≡ netloop_fail
    → (m : Net) × (net_round r n ≡ returned minus_one m)
unfolding net_round timeout_check
net_round-fail r n h = elim (Bool-cases (r.key == b'q')) [
  | inl q ↦ (
    net_clear_handlers (record (eth_rx r.frames n) {
      arp = record (eth_rx r.frames n).arp { wait_packet_ip = 0 };
    }),
    rw q refl,
  )
  | inr other ↦
      let failed =
        timeout_check-fail (arp_timeout_check (eth_rx r.frames n))
          (arp_timeout_check-net_state (eth_rx r.frames n) ∙ h) in
      (
        net_clear_handlers (timeout_check (arp_timeout_check (eth_rx r.frames n))),
        rw other (rw failed refl),
      )
]

pub eth_rx-one :
    (f : Frame) (n : Net) (d : Device)
    → n.eth_current ≡ some d
    → eth_rx (f ∷ []) n ≡ net_receive f.bytes f.size n
unfolding eth_rx
eth_rx-one f n d h = present n.eth_current h
  where
    present :
        (o : Option Device)
        → o ≡ some d
        → elim o as (λ x. Net) [ none ↦ n | some x ↦ net_receive f.bytes f.size n ]
          ≡ net_receive f.bytes f.size n
    present none e = cc
    present (some x) e = refl

tftp_receive-error :
    (m : Buf) (p dport sport len : ℕ) (n : Net)
    → n.tftp.our_port ≡ dport
    → (n.tftp.state ≡ send_rrq) ⊎ (n.tftp.remote_port ≡ sport)
    → 4 ≤ len
    → get_be16 m p ≡ 5
    → (get_be16 m (p + 2) ≡ 1) ⊎ (get_be16 m (p + 2) ≡ 2)
    → (tftp_receive m p dport sport len n).net_state ≡ netloop_fail
unfolding tftp_receive tftp_accepts handle_error
tftp_receive-error m p dport sport len n ours from long op code = ground arith

-- An ERROR packet for our transfer that says "file not found" or "access violation", sent over a link
-- without VLANs by a machine that builds its frames as we do, makes `NetLoop` return -1 in the round in
-- which it arrives, whatever timeouts have run out by then.
pub net_round-tftp_error :
    (s n : Net) (d : Device) (to : Mac) (dport sport len size key : ℕ)
    → Linked s n to dport sport len size
    → n.eth_current ≡ some d
    → n.tftp.our_port ≡ dport
    → (n.tftp.state ≡ send_rrq) ⊎ (n.tftp.remote_port ≡ sport)
    → 4 ≤ len
    → get_be16 s.tx 42 ≡ 5
    → (get_be16 s.tx 44 ≡ 1) ⊎ (get_be16 s.tx 44 ≡ 2)
    → (m : Net) × (net_round
          (record {
            frames = record { size = size; bytes = frame_to s n to dport sport len } ∷ [];
            key = key;
          })
          n
        ≡ returned minus_one m)
net_round-tftp_error s n d to dport sport len size key link device ours from long op code =
    let f = frame_to s n to dport sport len in
    let got = net_receive-udp_prepare s n to dport sport len size link in
    let byte = λ (i : ℕ) (h : i < 4). got.1 i (omega arith) in
    let op' : get_be16 f 42 ≡ 5 = omega (arith, byte 0 (omega arith), byte 1 (omega arith)) in
    let same : get_be16 f (42 + 2) ≡ get_be16 s.tx 44 =
      omega (arith, byte 2 (omega arith), byte 3 (omega arith)) in
    let code' : (get_be16 f (42 + 2) ≡ 1) ⊎ (get_be16 f (42 + 2) ≡ 2) = omega arith in
    net_round-fail (record { frames = record { size = size; bytes = f } ∷ []; key = key }) n
      (ap (λ (k : Net). k.net_state)
          (eth_rx-one (record { size = size; bytes = f }) n d device ∙ got.0)
        ∙ tftp_receive-error f 42 dport sport len n ours from long op' code')
