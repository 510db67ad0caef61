-- ===== src/Net/Loop/Request.antt =====
-- The request of a TFTP transfer, from `TftpStart` to the ARP reply that sends it, and the state in
-- which the first block is awaited.
use mathlib.Core.Path.{subst}
use non_os_lite.Prelude.{
  Buf, ap, arith, false, get_be16, inl, length, refl, some, suc, sym, true, u32, zero, ℕ, ◌*◌, ◌+◌,
  ◌/◌, ◌∙◌, ◌≡◌, ◌≢◌, ◌≤◌,
}
use non_os_lite.Net.State.{
  Device, Mac, Net, Platform, Tftp, get_mac, mac_eq, netloop_continue, null_mac, server_ether,
}
use non_os_lite.Net.Header.{net_read_ip}
use non_os_lite.Net.Arp.{arp_accepts, arp_receive, arp_resolved}
use non_os_lite.Net.Send.{udp_prepare}
use non_os_lite.Net.Keeps.{tftp_send-Keeps}
use non_os_lite.Net.Deferral.{Unicast, Waits, arp_receive-awaited, deferred-Waits}
use non_os_lite.Net.Loop.Live.{Live, Steady, clock}
use non_os_lite.Net.Loop.Opening.{
  Answered, Begun, arp_resolved-Answered, tftp_begin-Begun, tftp_send-Reads,
}
use non_os_lite.Net.Tftp.Start.{tftp_begin, tftp_block_size, tftp_start, tftp_target}
use non_os_lite.Net.Tftp.Send.{tftp_payload, tftp_queue, tftp_send}
use non_os_lite.Net.Tftp.Download.{Awaiting}

-- The server's address is known to be no broadcast, a device is there, and the clock stays within one
-- timeout from now on.
pub record Ready (n : Net) (dev : Device) (span : ℕ) : Type 0 where
  pub device : n.eth_current ≡ some dev
  pub no_vlan : n.our_vlan ≡ 0xffff
  pub server : Unicast (tftp_target n).0
  pub some_msecs : n.tftp.timeout_msecs ≢ 0
  pub steady : Steady n.platform n.ticks (clock n.platform n.ticks n.reads) span
  pub long : span ≤ u32 (n.tftp.timeout_msecs * n.platform.sys_hz) / 1000
  pub no_size : n.boot_file_xfer_size ≡ 0
  pub going : n.net_state ≡ netloop_continue

-- The frame has the reply at `p` that the machine waits for, from the address `sha`.
pub record Replies (et : Buf) (p size : ℕ) (sha : Mac) (m : Net) : Type 0 where
  pub accepted : arp_accepts et p size m ≡ true
  pub op : get_be16 et (p + 6) ≡ 2
  pub from : net_read_ip et (p + 14) ≡ m.arp.wait_reply_ip
  pub address : get_mac et (p + 8) ≡ sha
  pub known : mac_eq sha null_mac ≡ false

rises-by :
    (p : Platform) (ticks : ℕ → ℕ) (start span : ℕ)
    → Steady p ticks start span
    → (k j : ℕ) → clock p ticks k ≤ clock p ticks (k + j)
rises-by p ticks start span s k zero = let same : k + 0 ≡ k = omega arith in rw same (omega arith)
rises-by p ticks start span s k (suc j) =
    let next : k + suc j ≡ suc (k + j) = omega arith in
    rw next (omega (arith, rises-by p ticks start span s k j, s.rises (k + j)))

module _ (n : Net) (dev : Device) (span : ℕ) (ready : Ready n dev span) where
  begun_lem : Begun n (tftp_begin n)
  begun_lem = tftp_begin-Begun n ready.some_msecs

  server-Unicast : Unicast (tftp_begin n).tftp.remote_ip
  server-Unicast = subst Unicast (sym begun_lem.target) ready.server

  clock-rises : clock n.platform n.ticks (n.reads + 1) ≤ clock n.platform n.ticks (n.reads + 4)
  clock-rises =
      let later : n.reads + 4 ≡ n.reads + 1 + 3 = omega arith in
      rw later (rises-by n.platform n.ticks _ span ready.steady (n.reads + 1) 3)

  start-Waits :
      Waits
        (tftp_begin n).tftp.remote_ip
        ((udp_prepare null_mac
            (tftp_begin n).tftp.remote_ip
            (tftp_begin n).tftp.remote_port
            (tftp_begin n).tftp.our_port
            (length (tftp_payload (tftp_begin n).tftp))
            (tftp_queue (tftp_begin n))).0
          + 28
          + length (tftp_payload (tftp_begin n).tftp))
        server_ether
        (udp_prepare null_mac
          (tftp_begin n).tftp.remote_ip
          (tftp_begin n).tftp.remote_port
          (tftp_begin n).tftp.our_port
          (length (tftp_payload (tftp_begin n).tftp))
          (tftp_queue (tftp_begin n))).1
        (tftp_start n)
  unfolding tftp_start tftp_send
  start-Waits =
      deferred-Waits _ _ _ _ (tftp_queue (tftp_begin n)) (tftp_start n) server-Unicast
        begun_lem.unknown refl

  pub tftp_start-device : (tftp_start n).eth_current ≡ some dev
  unfolding tftp_start
  tftp_start-device =
      (tftp_send-Keeps (tftp_begin n)).same_eth_current ∙ (begun_lem.same_device ∙ ready.device)

  pub tftp_start-untagged : (tftp_start n).our_vlan ≡ 0xffff
  unfolding tftp_start
  tftp_start-untagged =
      (tftp_send-Reads (tftp_begin n) server-Unicast begun_lem.unknown).same_vlan
      ∙ (begun_lem.same_vlan ∙ ready.no_vlan)

  -- The states from the request to the reply.
  module _ (et : Buf) (p size : ℕ) (sha : Mac) (reply : Replies et p size sha (tftp_start n)) where
    waiting_lem : (tftp_start n).arp.wait_packet_ip ≢ 0
    waiting_lem z = server-Unicast.0 (sym start-Waits.wait_ip ∙ z)

    arp_receive-resolved : arp_receive et p size (tftp_start n) ≡ arp_resolved sha (tftp_start n)
    arp_receive-resolved =
        arp_receive-awaited et p size (tftp_start n) reply.accepted reply.op waiting_lem reply.from
        ∙ ap (λ a. arp_resolved a (tftp_start n)) reply.address

    answered_lem : Answered sha (tftp_start n) (arp_receive et p size (tftp_start n))
    answered_lem =
        subst (Answered sha (tftp_start n)) (sym arp_receive-resolved)
          (arp_resolved-Answered sha (tftp_start n) start-Waits.wait_mac)

    same_tftp_lem : (arp_receive et p size (tftp_start n)).tftp ≡ (tftp_begin n).tftp
    unfolding tftp_start
    same_tftp_lem = answered_lem.kept.same_tftp ∙ (tftp_send-Keeps (tftp_begin n)).same_tftp

    pub opened-Live :
        Live n.platform n.ticks
          (clock n.platform n.ticks n.reads)
          span
          dev
          n.our_ip
          (arp_receive et p size (tftp_start n))
    unfolding tftp_start
    opened-Live =
        let a = answered_lem in
        let b = begun_lem in
        let k = tftp_send-Keeps (tftp_begin n) in
        let r = tftp_send-Reads (tftp_begin n) server-Unicast b.unknown in
        let read : (arp_receive et p size (tftp_start n)).reads ≡ n.reads + 4 =
          a.same_reads ∙ (r.some_reads ∙ (ap (λ c. c + 1) b.some_reads ∙ omega arith)) in
        let delta : (arp_receive et p size (tftp_start n)).time_delta
            ≡ u32 (n.tftp.timeout_msecs * n.platform.sys_hz) / 1000 =
          a.same_time_delta ∙ (r.same_time_delta ∙ b.delta) in
        let msecs : (arp_receive et p size (tftp_start n)).tftp.timeout_msecs
            ≡ n.tftp.timeout_msecs =
          ap (λ (t : Tftp). t.timeout_msecs) same_tftp_lem ∙ b.same_msecs in
        let begun_at : (arp_receive et p size (tftp_start n)).time_start
            ≡ clock n.platform n.ticks (n.reads + 1) =
          a.same_time_start ∙ (r.same_time_start ∙ b.started) in
        record {
          same_platform = a.same_platform ∙ (r.same_platform ∙ b.same_platform);
          same_ticks = a.same_ticks ∙ (r.same_ticks ∙ b.same_ticks);
          device = a.kept.same_eth_current ∙ (k.same_eth_current ∙ (b.same_device ∙ ready.device));
          address = a.kept.same_our_ip ∙ (k.same_our_ip ∙ b.same_ip);
          no_vlan = a.same_vlan ∙ (r.same_vlan ∙ (b.same_vlan ∙ ready.no_vlan));
          handler = a.kept.same_udp_handler ∙ (k.same_udp_handler ∙ b.handler);
          no_wait = a.no_wait;
          known = ap (λ x. mac_eq x null_mac) a.known ∙ reply.known;
          server = subst (λ (t : Tftp). Unicast t.remote_ip) (sym same_tftp_lem) server-Unicast;
          timer = a.same_time_handler ∙ (r.same_time_handler ∙ b.timer);
          begun =
              omega (arith, begun_at, rises-by n.platform n.ticks _ span ready.steady n.reads 1);
          since =
              subst
                (λ v.
                  (arp_receive et p size (tftp_start n)).time_start ≤ clock n.platform n.ticks v)
                (sym read) (omega (arith, begun_at, clock-rises));
          not_shorter = omega (arith, delta, ready.long);
          some_msecs = λ z. ready.some_msecs (sym msecs ∙ z);
          long = subst (λ v. span ≤ u32 (v * n.platform.sys_hz) / 1000) (sym msecs) ready.long;
        }

    pub opened-Awaiting :
        (content : ℕ → ℕ) (sport : ℕ)
        → Awaiting content n.ram tftp_block_size n.load_addr
            (tftp_begin n).tftp.our_port
            sport
            (arp_receive et p size (tftp_start n))
    unfolding tftp_start
    opened-Awaiting content sport =
        let a = answered_lem in
        let b = begun_lem in
        let k = tftp_send-Keeps (tftp_begin n) in
        record {
          asked = inl (ap (λ (t : Tftp). t.state) same_tftp_lem ∙ b.asked);
          no_size = a.kept.same_size ∙ (k.same_size ∙ (b.same_size ∙ ready.no_size));
          blk_size = ap (λ (t : Tftp). t.blk_size) same_tftp_lem ∙ b.blk_size;
          our_end = ap (λ (t : Tftp). t.our_port) same_tftp_lem;
          load_addr = a.kept.same_load_addr ∙ (k.same_load_addr ∙ b.same_load_addr);
          untouched = λ q. ap (λ (r : Buf). r q) (a.kept.same_ram ∙ (k.same_ram ∙ b.same_ram));
        }

    pub opened-going : (arp_receive et p size (tftp_start n)).net_state ≡ netloop_continue
    unfolding tftp_start
    opened-going =
        answered_lem.kept.same_net_state
        ∙ ((tftp_send-Keeps (tftp_begin n)).same_net_state
            ∙ (begun_lem.same_net_state ∙ ready.going))
