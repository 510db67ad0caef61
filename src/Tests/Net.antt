-- ===== src/Tests/Net.antt =====
-- The network stack at concrete inputs.
use non_os_lite.Prelude.{
  Buf, IsBytes, [], arith, false, get_be16, if◌then◌else◌, ltb, put_be16, refl, sub32, true, ◌*◌,
  ◌+◌, ◌/◌, ◌<◌, ◌==◌, ◌∷◌, ◌≡◌, ◌≢◌,
}
use non_os_lite.Net.State.{
  Mac, Net, get_mac, mac_eq, no_handler, null_mac, ping_timeout, platform_ahb, server_ether,
  tftp_handler, tftp_timeout, tftpget,
}
use non_os_lite.Net.Sample.{blank, device, idle, idle_tftp, our_addr, our_mac, server_addr}
use non_os_lite.Net.Clock.{elapsed, get_timer, tick_to_time}
use non_os_lite.Net.Eth.{eth_send, net_send_packet}
use non_os_lite.Net.Header.{net_read_ip, net_set_ether, net_set_ip_header, net_set_udp_header}
use non_os_lite.Net.Arp.{
  arp_accepts, arp_fields, arp_raw_request, arp_receive, arp_reply_ip, arp_request,
}
use non_os_lite.Net.Send.{
  net_send_udp_packet, net_set_timeout, net_wait_arp, udp_finish, udp_prepare,
}
use non_os_lite.Net.Ping.Answer.{Answers, echo_packet-Answers}
use non_os_lite.Net.Ping.{echo_packet}
use non_os_lite.Net.Deferral.{arp_receive-deferred, last_sent}
use non_os_lite.Net.Loop.{Round, net_rounds, run_time_handler, running, timeout_check}
use non_os_lite.Net.Loop.Ends.{given_up, net_rounds-given_up, silent}
use non_os_lite.Net.Loop.Timeouts.{armed, time_at, timeout_check-net_set_timeout}

abbrev letters : Buf
letters a = if a == 42 then 65 else if a == 43 then 66 else 0

letters-IsBytes : IsBytes letters
letters-IsBytes a = ground arith

abbrev listening : Net
listening = record idle { our_ip = server_addr; udp_handler = tftp_handler }

abbrev datagram : Buf
datagram = (net_set_udp_header letters 14 server_addr 69 1024 2 idle).0

abbrev server_ether_mac : Mac
server_ether_mac = record { m0 = 2; m1 = 0; m2 = 0; m3 = 0; m4 = 0; m5 = 7 }

abbrev reply : Buf
reply = put_be16 (arp_fields blank 14 server_ether_mac server_addr our_mac our_addr) 20 2

abbrev waiting : Net
waiting = (net_send_udp_packet server_ether server_addr 69 1024 2 idle).1

waiting-accepts : arp_accepts reply 14 46 waiting ≡ true
unfolding arp_accepts arp_fields net_send_udp_packet udp_prepare udp_finish net_set_ether
    net_set_udp_header net_set_ip_header net_wait_arp arp_request arp_raw_request get_timer
    net_send_packet eth_send
waiting-accepts = refl

waiting-from : net_read_ip reply (14 + 14) ≡ waiting.arp.wait_reply_ip
unfolding arp_reply_ip arp_fields net_send_udp_packet udp_prepare udp_finish net_set_ether
    net_set_udp_header net_set_ip_header net_wait_arp arp_request arp_raw_request get_timer
    net_send_packet eth_send
waiting-from = refl

reply-bytes : (get_be16 reply (14 + 6) ≡ 2) × (mac_eq (get_mac reply (14 + 8)) null_mac ≡ false)
unfolding arp_fields
reply-bytes = (refl, refl)

arp_receive-deferred_example :
    last_sent (arp_receive reply 14 46 waiting)
    ≡ last_sent
        (net_send_udp_packet server_ether server_addr 69 1024 2
          (record idle { server_mac = get_mac reply (14 + 8) })).1
arp_receive-deferred_example =
    arp_receive-deferred server_addr 69 1024 2 reply 14 46 idle waiting device
      (λ e. absurd (omega arith), λ e. absurd (omega arith)) refl refl refl waiting-accepts
      reply-bytes.0 waiting-from reply-bytes.1

abbrev quiet : Round
quiet = record { frames = []; key = 0 }

abbrev last_try : Net
last_try = record idle {
  time_handler = tftp_timeout;
  tftp = record idle_tftp { timeout_count = 10 };
  ticks = λ k. 50000000;
  time_delta = 705032;
}

net_rounds-given_up_example :
    net_rounds tftpget (quiet ∷ quiet ∷ quiet ∷ []) (running last_try) ≡ running (given_up last_try)
unfolding get_timer elapsed tick_to_time
net_rounds-given_up_example =
    net_rounds-given_up tftpget quiet (quiet ∷ quiet ∷ []) last_try silence refl refl refl
      (omega arith) late
  where
    silence : silent (quiet ∷ quiet ∷ quiet ∷ []) ≡ true
    silence = refl

    late : last_try.time_delta < sub32 (get_timer 0 last_try).0 last_try.time_start
    late = omega arith

abbrev slow : Net
slow = record idle { platform = platform_ahb; ticks = λ k. 37748736 * k }

timeout_check-net_set_timeout_example : timeout_check (net_set_timeout 5000 ping_timeout slow) ≡ (
    if ltb (5000 * slow.platform.sys_hz / 1000) (sub32 (time_at 1 slow) (time_at 0 slow))
    then run_time_handler ping_timeout
        (record (armed (5000 * slow.platform.sys_hz / 1000) ping_timeout slow) {
          time_handler = no_handler;
        })
    else armed (5000 * slow.platform.sys_hz / 1000) ping_timeout slow)
timeout_check-net_set_timeout_example =
    timeout_check-net_set_timeout 5000 ping_timeout slow (omega arith) ping_not_none (omega arith)
  where
    ping_not_none : ping_timeout ≢ no_handler
    ping_not_none = ground arith

echo_packet-Answers_example : Answers letters 14 30 our_addr (echo_packet letters 14 30 idle)
echo_packet-Answers_example =
    echo_packet-Answers letters 14 30 idle letters-IsBytes (omega arith) (omega arith) (omega arith)
