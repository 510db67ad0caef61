-- ===== src/Net/Loop/Frames.antt =====
-- The frame of a data packet, and the round of `NetLoop` in which it arrives.
use mathlib.Core.Path.{subst}
use non_os_lite.Prelude.{
  Buf, IsBytes, List, [], ap, arith, false, refl, sym, ℕ, ◌+◌, ◌<◌, ◌==◌, ◌^◌, ◌∙◌, ◌∷◌, ◌≡◌, ◌≤◌,
}
use non_os_lite.Net.State.{
  Device, Frame, Mac, Net, Platform, Proto, netloop_continue, netloop_success, tftpget,
}
use non_os_lite.Net.Arp.{arp_timeout_check}
use non_os_lite.Net.Send.{net_clear_handlers, net_set_timeout, udp_prepare}
use non_os_lite.Net.Receive.{net_receive}
use non_os_lite.Net.Tftp.Receive.{tftp_receive}
use non_os_lite.Net.Tftp.Transfer.{Complete, Loaded}
use non_os_lite.Net.Tftp.File.{Packet}
use non_os_lite.Net.Delivery.Link.{IsMac, Linked, net_receive-udp_prepare}
use non_os_lite.Net.Loop.{Round, after_round, eth_rx, net_round, returned, running, timeout_check}
use non_os_lite.Net.Loop.Ends.{arp_timeout_check-idle}
use non_os_lite.Net.Loop.Errors.{eth_rx-one}
use non_os_lite.Net.Loop.Live.{Live, Steady, timeout_check-Live}

-- What stays the same in a download: the clock, from `start` on, the device, the client's address, and
-- the ports of both ends.
pub record Wire : Type 0 where
  pub platform : Platform
  pub ticks : ℕ → ℕ
  pub start : ℕ
  pub span : ℕ
  pub device : Device
  pub ip : ℕ
  pub dport : ℕ
  pub sport : ℕ

-- The clock stays within the span, and the numbers fit their fields.
pub record IsWire (wire : Wire) : Type 0 where
  pub steady : Steady wire.platform wire.ticks wire.start wire.span
  pub ip32 : wire.ip < 2 ^ 32
  pub dport16 : wire.dport < 2 ^ 16
  pub sport16 : wire.sport < 2 ^ 16

-- The machine is in a transfer that no timeout disturbs.
abbrev pub OnLine : Wire → Net → Type 0
OnLine wire = Live wire.platform wire.ticks wire.start wire.span wire.device wire.ip

-- A machine that sends a data packet: `bytes` bytes of the file behind the TFTP header, in a frame of
-- `size` bytes to the address `to`.
pub record Sending : Type 0 where
  pub machine : Net
  pub to : Mac
  pub bytes : ℕ
  pub size : ℕ

-- The packet in the machine's transmit buffer, and the round in which its frame arrives.
abbrev pub packet_of : Sending → Packet
packet_of x = record { frame = x.machine.tx; at = 42; size = x.bytes }

abbrev pub frame_of : Wire → Sending → Frame
frame_of wire x = record {
  size = x.size;
  bytes = (udp_prepare x.to wire.ip wire.dport wire.sport (x.bytes + 4) x.machine).1.tx;
}

abbrev pub round_of : Wire → Sending → Round
round_of wire x = record { frames = frame_of wire x ∷ []; key = 0 }

-- The machine can send the packet over a link without VLANs.
pub record CanSend (x : Sending) : Type 0 where
  pub payload : IsBytes x.machine.tx
  pub to_mac : IsMac x.to
  pub from_mac : IsMac x.machine.our_ether
  pub no_vlan : x.machine.our_vlan ≡ 0xffff
  pub fits : x.bytes + 32 < 2 ^ 16
  pub framed : x.bytes + 46 ≤ x.size
  pub short : x.size < 2 ^ 31

abbrev pub AllSend : List Sending → Type 0
AllSend [] = Unit {0}
AllSend (x ∷ xs) = CanSend x × AllSend xs

pub after_round-continue :
    (protocol : Proto) (n : Net)
    → n.net_state ≡ netloop_continue
    → after_round protocol (running n) ≡ running n
unfolding after_round
after_round-continue protocol n going = ground arith

-- How a round ends whose frames leave `n1`, when the tests of the timeouts leave `m`.
pub round-continue :
    (r : Round) (n n1 m : Net)
    → (r.key == b'q') ≡ false
    → eth_rx r.frames n ≡ n1
    → timeout_check (arp_timeout_check n1) ≡ m
    → m.net_state ≡ netloop_continue
    → net_round r n ≡ running m
unfolding net_round
round-continue r n n1 m key got checked going = rw (key, got) (rw checked (ground arith))

round-success :
    (r : Round) (n n1 m : Net)
    → (r.key == b'q') ≡ false
    → eth_rx r.frames n ≡ n1
    → timeout_check (arp_timeout_check n1) ≡ m
    → m.net_state ≡ netloop_success
    → net_round r n ≡ returned (net_clear_handlers m).boot_file_xfer_size (net_clear_handlers m)
unfolding net_round
round-success r n n1 m key got checked done = rw (key, got) (rw checked (ground arith))

clear-keeps :
    (n : Net)
    → ((net_clear_handlers n).boot_file_xfer_size ≡ n.boot_file_xfer_size)
      × ((net_clear_handlers n).ram ≡ n.ram)
unfolding net_clear_handlers net_set_timeout
clear-keeps n = (refl, refl)

module _ (wire : Wire) (ok : IsWire wire) where
  -- A frame comes to the TFTP handler with its payload intact.
  pub eth_rx-frame :
      (x : Sending) (n : Net)
      → CanSend x
      → OnLine wire n
      → (eth_rx (frame_of wire x ∷ []) n
          ≡ tftp_receive (frame_of wire x).bytes 42 wire.dport wire.sport (x.bytes + 4) n)
        × ((i : ℕ) → i < x.bytes + 4 → (frame_of wire x).bytes (42 + i) ≡ x.machine.tx (42 + i))
  eth_rx-frame x n c l =
      let link : Linked x.machine n x.to wire.dport wire.sport (x.bytes + 4) x.size = record {
        payload = c.payload;
        to_mac = c.to_mac;
        from_mac = c.from_mac;
        sender_plain = c.no_vlan;
        plain = l.no_vlan;
        address = rw l.address ok.ip32;
        to_port = ok.dport16;
        from_port = ok.sport16;
        fits = omega (arith, c.fits);
        long = omega (arith, c.framed);
        short = c.short;
        expects = l.handler;
      } in
      let got =
        subst
          (λ a.
            (net_receive (udp_prepare x.to a wire.dport wire.sport (x.bytes + 4) x.machine).1.tx
                x.size n
              ≡ tftp_receive (udp_prepare x.to a wire.dport wire.sport (x.bytes + 4) x.machine).1.tx
                  42 wire.dport wire.sport (x.bytes + 4) n)
            × ((i : ℕ)
                → i < x.bytes + 4
                → (udp_prepare x.to a wire.dport wire.sport (x.bytes + 4) x.machine).1.tx (42 + i)
                  ≡ x.machine.tx (42 + i)))
          l.address
          (net_receive-udp_prepare x.machine n x.to wire.dport wire.sport (x.bytes + 4) x.size
            link) in
      (eth_rx-one (frame_of wire x) n wire.device l.device ∙ got.0, got.1)

  -- The round in which a packet arrives that does not end the transfer, and the one that does.
  pub round-running :
      (x : Sending) (n n1 : Net)
      → eth_rx (frame_of wire x ∷ []) n ≡ n1
      → OnLine wire n1
      → n1.net_state ≡ netloop_continue
      → after_round tftpget (net_round (round_of wire x) n)
        ≡ running (record n1 { reads = n1.reads + 1 })
  round-running x n n1 got l going =
      let checked =
        ap timeout_check (arp_timeout_check-idle n1 l.no_wait)
        ∙ timeout_check-Live wire.platform wire.ticks wire.start wire.span wire.device wire.ip
            ok.steady n1 l in
      ap (after_round tftpget) (
        round-continue (round_of wire x) n n1 (record n1 { reads = n1.reads + 1 }) refl got checked
          going)
      ∙ after_round-continue tftpget (record n1 { reads = n1.reads + 1 }) going

  pub round-done :
      (content : ℕ → ℕ) (before : Buf) (blk la : ℕ) (x : Sending) (n n1 : Net) (total : ℕ)
      → eth_rx (frame_of wire x ∷ []) n ≡ n1
      → OnLine wire n1
      → Complete content before blk la wire.dport wire.sport total n1
      → (m : Net) × ((net_round (round_of wire x) n ≡ returned total m)
          × Loaded content before la m.ram total)
  round-done content before blk la x n n1 total got l c =
      let checked =
        ap timeout_check (arp_timeout_check-idle n1 l.no_wait)
        ∙ timeout_check-Live wire.platform wire.ticks wire.start wire.span wire.device wire.ip
            ok.steady n1 l in
      let n2 : Net = record n1 { reads = n1.reads + 1 } in
      let ends = round-success (round_of wire x) n n1 n2 refl got checked c.success in
      let kept = clear-keeps n2 in
      (
        net_clear_handlers n2,
        (
          ends ∙ ap (λ k. returned k (net_clear_handlers n2)) (kept.0 ∙ c.xfer_size),
          subst (λ r. Loaded content before la r total) (sym kept.1) c.all_loaded,
        ),
      )
