-- ===== src/Net/Untouched.antt =====
-- What no operation but the store of a TFTP block changes: memory, the load address, and the handler of
-- UDP packets.
use non_os_lite.Prelude.{
  Bool, Buf, arith, false, if◌then◌else◌, leb, ltb, refl, sub32, true, ℕ, ◌+◌, ◌∙◌, ◌≡◌,
}
use non_os_lite.Net.State.{
  Mac, MacRef, Net, TftpState, TimeHandler, bad_magic, data_state, get_mac, no_handler, oack,
  ping_timeout, put_mac, recv_wrq, send_rrq, send_wrq, tftp_timeout, too_large,
}
use non_os_lite.Net.Clock.{get_timer}
use non_os_lite.Net.Keeps.{
  Keeps, arp_request-Keeps, net_send_packet-Keeps, net_set_timeout-Keeps, tftp_send-Keeps,
}
use non_os_lite.Net.Arp.{
  arp_answer, arp_receive, arp_reply, arp_request, arp_resolved, arp_retry, arp_timeout_check,
  arp_timeout_count, store_mac,
}
use non_os_lite.Net.Ping.{echo_answer, ping_receive}
use non_os_lite.Net.Receive.{receive_icmp}
use non_os_lite.Net.Send.{net_set_timeout}
use non_os_lite.Net.Tftp.Send.{tftp_send}
use non_os_lite.Net.Tftp.Receive.{tftp_timed_out}
use non_os_lite.Net.Loop.{run_time_handler, timeout_check}

pub record Untouched (a b : Net) : Type 0 where
  pub same_ram : b.ram ≡ a.ram
  pub same_load_addr : b.load_addr ≡ a.load_addr
  pub same_udp_handler : b.udp_handler ≡ a.udp_handler

pub Untouched-refl : (n : Net) → Untouched n n
Untouched-refl n = record { same_ram = refl; same_load_addr = refl; same_udp_handler = refl }

pub Untouched-trans : {a b c : Net} → Untouched a b → Untouched b c → Untouched a c
Untouched-trans p q = record {
  same_ram = q.same_ram ∙ p.same_ram;
  same_load_addr = q.same_load_addr ∙ p.same_load_addr;
  same_udp_handler = q.same_udp_handler ∙ p.same_udp_handler;
}

pub Keeps-Untouched : {a b : Net} → Keeps a b → Untouched a b
Keeps-Untouched k = record {
  same_ram = k.same_ram;
  same_load_addr = k.same_load_addr;
  same_udp_handler = k.same_udp_handler;
}

-- Both branches of a test.
pub if-Untouched :
    (n : Net) (b : Bool) (x y : Net)
    → Untouched n x
    → Untouched n y
    → Untouched n (if b then x else y)
if-Untouched n true x y p q = p
if-Untouched n false x y p q = q

arp_answer-Untouched : (et : Buf) (p : ℕ) (n : Net) → Untouched n (arp_answer et p n)
unfolding arp_answer
arp_answer-Untouched et p n = Keeps-Untouched (net_send_packet-Keeps _ _ n)

store_mac-Untouched : (r : MacRef) (mac : Mac) (n : Net) → Untouched n (store_mac r mac n)
store_mac-Untouched r mac n = ground arith

arp_resolved-Untouched : (sha : Mac) (n : Net) → Untouched n (arp_resolved sha n)
unfolding arp_resolved
arp_resolved-Untouched sha n =
    let n1 = store_mac n.arp.wait_packet_mac sha n in
    let n2 : Net = record n1 { tx = put_mac n1.tx 0 sha } in
    let stored = store_mac-Untouched n.arp.wait_packet_mac sha n in
    let sent = Keeps-Untouched (net_send_packet-Keeps n2.tx n2.arp.wait_tx_packet_size n2) in
    record {
      same_ram = sent.same_ram ∙ stored.same_ram;
      same_load_addr = sent.same_load_addr ∙ stored.same_load_addr;
      same_udp_handler = sent.same_udp_handler ∙ stored.same_udp_handler;
    }

arp_reply-Untouched : (et : Buf) (p : ℕ) (n : Net) → Untouched n (arp_reply et p n)
unfolding arp_reply
arp_reply-Untouched et p n =
    if-Untouched n _ _ _ (Untouched-refl n)
      (if-Untouched n _ _ _ (arp_resolved-Untouched (get_mac et (p + 8)) n) (Untouched-refl n))

pub arp_receive-Untouched : (et : Buf) (p len : ℕ) (n : Net) → Untouched n (arp_receive et p len n)
unfolding arp_receive
arp_receive-Untouched et p len n =
    if-Untouched n _ _ _
      (if-Untouched n _ _ _ (arp_answer-Untouched et p n)
        (if-Untouched n _ _ _ (arp_reply-Untouched et p n) (Untouched-refl n)))
      (Untouched-refl n)

echo_answer-Untouched : (et : Buf) (p len : ℕ) (n : Net) → Untouched n (echo_answer et p len n)
unfolding echo_answer
echo_answer-Untouched et p len n = Keeps-Untouched (net_send_packet-Keeps _ _ n)

ping_receive-Untouched : (et : Buf) (p len : ℕ) (n : Net) → Untouched n (ping_receive et p len n)
unfolding ping_receive
ping_receive-Untouched et p len n = grind (arith, echo_answer-Untouched)

pub receive_icmp-Untouched :
    (et : Buf) (p len : ℕ) (n : Net) → Untouched n (receive_icmp et p len n)
unfolding receive_icmp
receive_icmp-Untouched et p len n =
    if-Untouched n _ _ _ (Untouched-refl n) (ping_receive-Untouched et p len n)

arp_retry-Untouched : (t : ℕ) (n : Net) → Untouched n (arp_retry t n)
unfolding arp_retry
arp_retry-Untouched t n =
    let again : Net = record n {
      arp = record n.arp { wait_try = n.arp.wait_try + 1; wait_timer_start = t };
    } in
    let marked : Untouched n again = record {
      same_ram = refl;
      same_load_addr = refl;
      same_udp_handler = refl;
    } in
    if-Untouched n (leb arp_timeout_count (n.arp.wait_try + 1))
      (record n { arp = record n.arp { wait_try = 0 } }) (arp_request again)
      (record { same_ram = refl; same_load_addr = refl; same_udp_handler = refl })
      (Untouched-trans marked (Keeps-Untouched (arp_request-Keeps again)))

pub arp_timeout_check-Untouched : (n : Net) → Untouched n (arp_timeout_check n)
unfolding arp_timeout_check get_timer
arp_timeout_check-Untouched n =
    let n1 : Net = record n { reads = n.reads + 1 } in
    let read : Untouched n n1 = record {
      same_ram = refl;
      same_load_addr = refl;
      same_udp_handler = refl;
    } in
    if-Untouched n _ _ _ (Untouched-refl n)
      (if-Untouched n _ _ _ (Untouched-trans read (arp_retry-Untouched _ n1)) read)

resend-Untouched :
    (n : Net) (s : TftpState)
    → Untouched n (elim s as (λ x. Net) [ recv_wrq ↦ n | _ ↦ tftp_send n ])
resend-Untouched n send_rrq = Keeps-Untouched (tftp_send-Keeps n)
resend-Untouched n data_state = Keeps-Untouched (tftp_send-Keeps n)
resend-Untouched n too_large = Keeps-Untouched (tftp_send-Keeps n)
resend-Untouched n bad_magic = Keeps-Untouched (tftp_send-Keeps n)
resend-Untouched n oack = Keeps-Untouched (tftp_send-Keeps n)
resend-Untouched n recv_wrq = Untouched-refl n
resend-Untouched n send_wrq = Keeps-Untouched (tftp_send-Keeps n)

tftp_timed_out-Untouched : (n : Net) → Untouched n (tftp_timed_out n)
unfolding tftp_timed_out
tftp_timed_out-Untouched n =
    let n1 : Net = record n { tftp = record n.tftp { timeout_count = n.tftp.timeout_count + 1 } } in
    let n2 = net_set_timeout n1.tftp.timeout_msecs tftp_timeout n1 in
    let counted : Untouched n n1 = record {
      same_ram = refl;
      same_load_addr = refl;
      same_udp_handler = refl;
    } in
    if-Untouched n _ _ _ counted (
      Untouched-trans counted (
        Untouched-trans
          (Keeps-Untouched (net_set_timeout-Keeps n1.tftp.timeout_msecs tftp_timeout n1))
          (resend-Untouched n2 n2.tftp.state)))

run_time_handler-Untouched : (h : TimeHandler) (n : Net) → Untouched n (run_time_handler h n)
unfolding run_time_handler
run_time_handler-Untouched no_handler n = Untouched-refl n
run_time_handler-Untouched tftp_timeout n = tftp_timed_out-Untouched n
run_time_handler-Untouched ping_timeout n = record {
  same_ram = refl;
  same_load_addr = refl;
  same_udp_handler = refl;
}

-- The test of the time for a handler that is set.
check-Untouched :
    (h : TimeHandler) (late : Bool) (n m : Net)
    → Untouched n m
    → Untouched n (if late then run_time_handler h (record m { time_handler = no_handler }) else m)
check-Untouched h late n m read =
    if-Untouched n late _ m
      (Untouched-trans read (
        Untouched-trans (record { same_ram = refl; same_load_addr = refl; same_udp_handler = refl })
          (run_time_handler-Untouched h (record m { time_handler = no_handler }))))
      read

at_handler-Untouched :
    (h : TimeHandler) (late : Bool) (n m : Net)
    → Untouched n m
    → Untouched n (elim h as (λ x. Net) [
      | no_handler ↦ n
      | k ↦ if late then run_time_handler k (record m { time_handler = no_handler }) else m
    ])
at_handler-Untouched no_handler late n m read = Untouched-refl n
at_handler-Untouched tftp_timeout late n m read = check-Untouched tftp_timeout late n m read
at_handler-Untouched ping_timeout late n m read = check-Untouched ping_timeout late n m read

pub timeout_check-Untouched : (n : Net) → Untouched n (timeout_check n)
unfolding timeout_check get_timer
timeout_check-Untouched n =
    let m = (get_timer 0 n).1 in
    at_handler-Untouched n.time_handler (ltb m.time_delta (sub32 (get_timer 0 n).0 m.time_start)) n
      m (record { same_ram = refl; same_load_addr = refl; same_udp_handler = refl })
