-- ===== src/Net/Loop/Whole.antt =====
-- A TFTP download as `NetLoop` runs it, from the request to the last block: the ARP reply arrives in
-- the first round, and the data packets in the following ones.
use non_os_lite.Prelude.{
  Buf, List, [], ap, arith, get_be16, length, le→ltb, map, refl, some, ℕ, ◌*◌, ◌+◌, ◌-◌, ◌<◌, ◌^◌,
  ◌∙◌, ◌∷◌, ◌≡◌, ◌≤◌,
}
use non_os_lite.Net.State.{Device, Frame, Mac, Net, tftpget}
use non_os_lite.Net.Header.{prot_arp, vlan_none}
use non_os_lite.Net.Arp.{arp_receive}
use non_os_lite.Net.Receive.{link_receive, net_receive, parse_ether}
use non_os_lite.Net.Delivery.Link.{vlan_accepts-untagged}
use non_os_lite.Net.Tftp.Start.{tftp_begin, tftp_block_size, tftp_start}
use non_os_lite.Net.Tftp.Transfer.{Loaded}
use non_os_lite.Net.Tftp.Download.{Awaiting}
use non_os_lite.Net.Tftp.File.{Sends}
use non_os_lite.Net.Loop.{
  Round, after_round, eth_rx, net_round, net_rounds, returned, running, timeout_check,
}
use non_os_lite.Net.Loop.Ends.{arp_timeout_check-idle}
use non_os_lite.Net.Loop.Errors.{eth_rx-one}
use non_os_lite.Net.Loop.Live.{clock, read-Live, timeout_check-Live}
use non_os_lite.Net.Loop.Frames.{
  AllSend, IsWire, Sending, Wire, after_round-continue, packet_of, round-continue, round_of,
}
use non_os_lite.Net.Loop.Live.{read-Live}
use non_os_lite.Net.Loop.Download.{net_rounds-download}
use non_os_lite.Net.Loop.Request.{
  Ready, Replies, opened-Awaiting, opened-Live, opened-going, tftp_start-device,
  tftp_start-untagged,
}

-- An ARP frame without a VLAN goes to the ARP layer.
net_receive-arp :
    (f : Buf) (size : ℕ) (r : Net)
    → r.our_vlan ≡ 0xffff
    → get_be16 f 12 ≡ prot_arp
    → 14 ≤ size
    → net_receive f size r ≡ arp_receive f 14 (size - 14) r
unfolding net_receive link_receive
net_receive-arp f size r plain arp long =
    rw (parsed, net_receive) (rw (vlan_accepts-untagged r plain, link_receive) refl)
  where
    parsed :
        parse_ether f size r
        ≡ some (record { proto = prot_arp; offset = 14; rest = size - 14; vlan = vlan_none })
    parsed = unfold parse_ether in rw (arp, le→ltb size 14 long) refl

-- The frame is an ARP reply that the machine waits for, and comes over a link without VLANs.
pub record ReplyFrame (f : Frame) (sha : Mac) (m : Net) : Type 0 where
  pub arp : get_be16 f.bytes 12 ≡ prot_arp
  pub long : 14 ≤ f.size
  pub reply : Replies f.bytes 14 (f.size - 14) sha m

abbrev pub reply_round : Frame → Round
reply_round f = record { frames = f ∷ []; key = 0 }

-- What stays the same in the transfer that the machine begins.
abbrev pub opened_wire : Net → Device → ℕ → ℕ → Wire
opened_wire n dev span sport = record {
  platform = n.platform;
  ticks = n.ticks;
  start = clock n.platform n.ticks n.reads;
  span = span;
  device = dev;
  ip = n.our_ip;
  dport = (tftp_begin n).tftp.our_port;
  sport = sport;
}

module _ (n : Net) (dev : Device) (span : ℕ) (ready : Ready n dev span) (f : Frame) (sha : Mac)
    (r : ReplyFrame f sha (tftp_start n)) where
  abbrev after_reply : Net
  after_reply = arp_receive f.bytes 14 (f.size - 14) (tftp_start n)

  eth_rx-reply : eth_rx (f ∷ []) (tftp_start n) ≡ after_reply
  eth_rx-reply =
      eth_rx-one f (tftp_start n) dev (tftp_start-device n dev span ready)
      ∙ net_receive-arp f.bytes f.size (tftp_start n) (tftp_start-untagged n dev span ready) r.arp
          r.long

  net_round-reply :
      after_round tftpget (net_round (reply_round f) (tftp_start n))
      ≡ running (record after_reply { reads = after_reply.reads + 1 })
  net_round-reply =
      let l = opened-Live n dev span ready f.bytes 14 (f.size - 14) sha r.reply in
      let going = opened-going n dev span ready f.bytes 14 (f.size - 14) sha r.reply in
      let checked =
        ap timeout_check (arp_timeout_check-idle after_reply l.no_wait)
        ∙ timeout_check-Live n.platform n.ticks _ span dev n.our_ip ready.steady after_reply l in
      ap (after_round tftpget) (
        round-continue (reply_round f) (tftp_start n) after_reply
          (record after_reply { reads = after_reply.reads + 1 }) refl eth_rx-reply checked going)
      ∙ after_round-continue tftpget (record after_reply { reads = after_reply.reads + 1 }) going

-- A download as `NetLoop` runs it from `TftpStart` on. The machine is ready: it has a device and no
-- VLAN, the server's address is no broadcast address, and the clock stays within one timeout. In the
-- first round the ARP reply that it waits for arrives; in the following ones arrive the data packets
-- of a file, in blocks of 512 bytes, one frame in each round, built by `udp_prepare`. All blocks at
-- full size fit below 2 ^ 32 from the load address on. Then the loop returns the size of the file;
-- the file's bytes stand in memory from the load address on, and every byte outside of them is as it
-- was before.
pub net_rounds-tftp_start :
    (n : Net) (dev : Device) (span : ℕ) (f : Frame) (sha : Mac) (content : ℕ → ℕ) (sport total : ℕ)
    (xs : List Sending)
    → Ready n dev span
    → ReplyFrame f sha (tftp_start n)
    → IsWire (opened_wire n dev span sport)
    → AllSend xs
    → Sends content tftp_block_size 0 (map packet_of xs) total
    → tftp_block_size * length xs < 2 ^ 32
    → n.load_addr + tftp_block_size * length xs ≤ 2 ^ 32
    → (m : Net) × ((net_rounds tftpget
            (reply_round f ∷ map (round_of (opened_wire n dev span sport)) xs)
            (running (tftp_start n))
          ≡ returned total m)
        × Loaded content n.ram n.load_addr m.ram total)
unfolding net_rounds
net_rounds-tftp_start n dev span f sha content sport total xs ready r ok all s fits room =
    let wire = opened_wire n dev span sport in
    let l = opened-Live n dev span ready f.bytes 14 (f.size - 14) sha r.reply in
    let w = opened-Awaiting n dev span ready f.bytes 14 (f.size - 14) sha r.reply content sport in
    let going = opened-going n dev span ready f.bytes 14 (f.size - 14) sha r.reply in
    let n2 : Net = record (after_reply n dev span ready f sha r) {
      reads = (after_reply n dev span ready f sha r).reads + 1;
    } in
    let w2 : Awaiting content n.ram tftp_block_size n.load_addr wire.dport wire.sport n2 = record {
      asked = w.asked;
      no_size = w.no_size;
      blk_size = w.blk_size;
      our_end = w.our_end;
      load_addr = w.load_addr;
      untouched = w.untouched;
    } in
    let rest =
      net_rounds-download wire content n.ram tftp_block_size n.load_addr total xs n2 ok
        (omega arith) w2
        (read-Live n.platform n.ticks wire.start span dev n.our_ip ready.steady _ l) going all s
        fits room in
    (
      rest.0,
      (
        ap (λ o. net_rounds tftpget (map (round_of wire) xs) o)
              (net_round-reply n dev span ready f sha r)
            ∙ rest.1.0,
        rest.1.1,
      ),
    )
