-- ===== src/Net/Loop/Steps.antt =====
-- One data packet of a TFTP download, as a frame: the state it leaves.
use mathlib.Core.Path.{subst}
use non_os_lite.Prelude.{Buf, [], arith, suc, sym, ℕ, ◌*◌, ◌+◌, ◌<◌, ◌^◌, ◌∙◌, ◌∷◌, ◌≡◌, ◌≤◌}
use non_os_lite.Net.State.{Net, netloop_continue}
use non_os_lite.Net.Tftp.Store.{new_transfer, update_block_number}
use non_os_lite.Net.Tftp.Receive.{accept_block}
use non_os_lite.Net.Tftp.Transfer.{
  Announced, Complete, Holds, InTransfer, accept_block-full, accept_block-short,
}
use non_os_lite.Net.Tftp.Download.{
  Awaiting, begun, begun-Announced, noted, noted-Announced, noted-last,
}
use non_os_lite.Net.Tftp.File.{IsData, Packet, tftp_receive-first, tftp_receive-next}
use non_os_lite.Net.Loop.{eth_rx}
use non_os_lite.Net.Loop.Live.{accept_block-Live, begun-Live, noted-Live}
use non_os_lite.Net.Loop.Frames.{
  CanSend, IsWire, OnLine, Sending, Wire, eth_rx-frame, frame_of, packet_of,
}

module _ (wire : Wire) (ok : IsWire wire) (content : ℕ → ℕ) (before : Buf) (blk la : ℕ)
    (pos : 0 < blk) where
  -- The packet that is received is the packet that was sent.
  received-IsData :
      (k : ℕ) (x : Sending) (f : Buf)
      → ((i : ℕ) → i < x.bytes + 4 → f (42 + i) ≡ x.machine.tx (42 + i))
      → IsData content blk k (packet_of x)
      → IsData content blk k (record { frame = f; at = 42; size = x.bytes })
  received-IsData k x f same d = record {
    opcode = omega (arith, d.opcode, same 0 (omega arith), same 1 (omega arith));
    number = omega (arith, d.number, same 2 (omega arith), same 3 (omega arith));
    body = λ i h.
        let place : 42 + (4 + i) ≡ 46 + i = omega arith in
        (rw place at (same (4 + i) (omega arith))) ∙ d.body i h;
  }

  -- The packet in the frame.
  abbrev pub frame_packet : Sending → Packet
  frame_packet x = record { frame = (frame_of wire x).bytes; at = 42; size = x.bytes }

  -- The state when the next block of a running transfer, or the first block, has been handled.
  pub next_state : Sending → Net → Net
  next_state x n = let f = (frame_of wire x).bytes in accept_block f 46 x.bytes (noted f 44 n)

  pub first_state : Sending → Net → Net
  first_state x n =
      let f = (frame_of wire x).bytes in accept_block f 46 x.bytes (begun wire.sport (noted f 44 n))

  pub arrives-next :
      (k : ℕ) (x : Sending) (n : Net)
      → InTransfer content before blk la wire.dport wire.sport k n
      → OnLine wire n
      → CanSend x
      → IsData content blk k (packet_of x)
      → (eth_rx (frame_of wire x ∷ []) n ≡ next_state x n)
        × (OnLine wire (next_state x n) × IsData content blk k (frame_packet x))
  unfolding next_state
  arrives-next k x n t l c d =
      let f = (frame_of wire x).bytes in
      let got = eth_rx-frame wire ok x n c l in
      let d' = received-IsData k x f got.1 d in
      (
        got.0
            ∙ tftp_receive-next content before blk la wire.dport wire.sport pos k
                (record { frame = f; at = 42; size = x.bytes }) n t d',
        (
          accept_block-Live wire.platform wire.ticks wire.start wire.span wire.device wire.ip
              ok.steady f 46 x.bytes (noted f 44 n)
              (noted-Live wire.platform wire.ticks wire.start wire.span wire.device wire.ip
                ok.steady f 44 n l),
          d',
        ),
      )

  pub arrives-first :
      (x : Sending) (n : Net)
      → Awaiting content before blk la wire.dport wire.sport n
      → OnLine wire n
      → CanSend x
      → IsData content blk 0 (packet_of x)
      → (eth_rx (frame_of wire x ∷ []) n ≡ first_state x n)
        × (OnLine wire (first_state x n) × IsData content blk 0 (frame_packet x))
  unfolding first_state
  arrives-first x n w l c d =
      let f = (frame_of wire x).bytes in
      let got = eth_rx-frame wire ok x n c l in
      let d' = received-IsData 0 x f got.1 d in
      (
        got.0
            ∙ tftp_receive-first content before blk la wire.dport wire.sport pos
                (record { frame = f; at = 42; size = x.bytes }) n w d',
        (
          accept_block-Live wire.platform wire.ticks wire.start wire.span wire.device wire.ip
              ok.steady f 46 x.bytes (begun wire.sport (noted f 44 n))
              (begun-Live wire.platform wire.ticks wire.start wire.span wire.device wire.ip
                ok.steady wire.sport (noted f 44 n)
                (noted-Live wire.platform wire.ticks wire.start wire.span wire.device wire.ip
                  ok.steady f 44 n l)),
          d',
        ),
      )

  -- A whole block, of whatever size the packet says.
  accept_block-whole :
      (k : ℕ) (f : Buf) (len : ℕ) (n : Net)
      → Announced content before blk la wire.dport wire.sport k n
      → Holds content f 46 (blk * k) len
      → len ≡ blk
      → blk * suc k < 2 ^ 32
      → la + blk * suc k ≤ 2 ^ 32
      → InTransfer content before blk la wire.dport wire.sport (suc k) (accept_block f 46 len n)
        × ((accept_block f 46 len n).net_state ≡ n.net_state)
  accept_block-whole k f len n a body full fits room =
      subst
        (λ b.
          InTransfer content before blk la wire.dport wire.sport (suc k) (accept_block f 46 b n)
          × ((accept_block f 46 b n).net_state ≡ n.net_state))
        (sym full)
        (accept_block-full content before blk la wire.dport wire.sport k f 46 fits pos room n a
          (subst (Holds content f 46 (blk * k)) full body))

  begun-net_state :
      (m : Buf) (q : ℕ) (n : Net) → (begun wire.sport (noted m q n)).net_state ≡ n.net_state
  unfolding new_transfer update_block_number
  begun-net_state m q n = ground arith

  -- Which leaves a transfer with one more block, or a complete one.
  pub next-full :
      (k : ℕ) (x : Sending) (n : Net)
      → InTransfer content before blk la wire.dport wire.sport k n
      → n.net_state ≡ netloop_continue
      → IsData content blk k (frame_packet x)
      → x.bytes ≡ blk
      → blk * suc k < 2 ^ 32
      → la + blk * suc k ≤ 2 ^ 32
      → InTransfer content before blk la wire.dport wire.sport (suc k) (next_state x n)
        × ((next_state x n).net_state ≡ netloop_continue)
  unfolding next_state
  next-full k x n t going d full fits room =
      let f = (frame_of wire x).bytes in
      let a =
        noted-Announced content before blk la wire.dport wire.sport k f 44 n t d.number fits in
      let r = accept_block-whole k f x.bytes (noted f 44 n) a d.body full fits room in
      let kept = noted-last content before blk la wire.dport wire.sport f 44 n in
      (r.0, r.1 ∙ (kept.3 ∙ going))

  pub next-short :
      (k : ℕ) (x : Sending) (n : Net)
      → InTransfer content before blk la wire.dport wire.sport k n
      → IsData content blk k (frame_packet x)
      → x.bytes < blk
      → blk * suc k < 2 ^ 32
      → la + blk * suc k ≤ 2 ^ 32
      → Complete content before blk la wire.dport wire.sport (blk * k + x.bytes) (next_state x n)
  unfolding next_state
  next-short k x n t d short fits room =
      let f = (frame_of wire x).bytes in
      let a =
        noted-Announced content before blk la wire.dport wire.sport k f 44 n t d.number fits in
      accept_block-short content before blk la wire.dport wire.sport k f 46 fits pos room
        (noted f 44 n) x.bytes a d.body short

  pub first-full :
      (x : Sending) (n : Net)
      → Awaiting content before blk la wire.dport wire.sport n
      → n.net_state ≡ netloop_continue
      → IsData content blk 0 (frame_packet x)
      → x.bytes ≡ blk
      → blk * 1 < 2 ^ 32
      → la + blk * 1 ≤ 2 ^ 32
      → InTransfer content before blk la wire.dport wire.sport 1 (first_state x n)
        × ((first_state x n).net_state ≡ netloop_continue)
  unfolding first_state
  first-full x n w going d full fits room =
      let f = (frame_of wire x).bytes in
      let a = begun-Announced content before blk la wire.dport wire.sport f 44 n w d.number in
      let r =
        accept_block-whole 0 f x.bytes (begun wire.sport (noted f 44 n)) a d.body full fits room in
      (r.0, r.1 ∙ (begun-net_state f 44 n ∙ going))

  pub first-short :
      (x : Sending) (n : Net)
      → Awaiting content before blk la wire.dport wire.sport n
      → IsData content blk 0 (frame_packet x)
      → x.bytes < blk
      → blk * 1 < 2 ^ 32
      → la + blk * 1 ≤ 2 ^ 32
      → Complete content before blk la wire.dport wire.sport (blk * 0 + x.bytes) (first_state x n)
  unfolding first_state
  first-short x n w d short fits room =
      let f = (frame_of wire x).bytes in
      let a = begun-Announced content before blk la wire.dport wire.sport f 44 n w d.number in
      accept_block-short content before blk la wire.dport wire.sport 0 f 46 fits pos room
        (begun wire.sport (noted f 44 n)) x.bytes a d.body short

  pub read-InTransfer :
      (k : ℕ) (n : Net)
      → InTransfer content before blk la wire.dport wire.sport k n
      → InTransfer content before blk la wire.dport wire.sport k (record n { reads = n.reads + 1 })
  read-InTransfer k n t = record {
    in_data = t.in_data;
    last = t.last;
    wrap = t.wrap;
    size = t.size;
    blk_size = t.blk_size;
    our_end = t.our_end;
    their_end = t.their_end;
    load_addr = t.load_addr;
    loaded = t.loaded;
  }
