-- ===== src/Net/Loop/Download.antt =====
-- A TFTP download as `NetLoop` runs it: each data packet arrives as a frame in a round of the loop.
use native.Mathlib.Numerals.{add-one}
use non_os_lite.Prelude.{
  Buf, List, [], ap, arith, length, map, suc, ℕ, ◌*◌, ◌+◌, ◌<◌, ◌^◌, ◌∙◌, ◌∷◌, ◌≡◌, ◌≤◌,
}
use non_os_lite.Net.State.{Net, netloop_continue, tftpget}
use non_os_lite.Net.Tftp.Transfer.{InTransfer, Loaded}
use non_os_lite.Net.Tftp.Download.{Awaiting}
use non_os_lite.Net.Tftp.File.{Sends}
use non_os_lite.Net.Loop.{after_round, net_rounds, returned, running}
use non_os_lite.Net.Loop.Live.{read-Live}
use non_os_lite.Net.Loop.Frames.{
  AllSend, IsWire, OnLine, Sending, Wire, packet_of, round-done, round-running, round_of,
}
use non_os_lite.Net.Loop.Steps.{
  arrives-first, arrives-next, first-full, first-short, first_state, next-full, next-short,
  next_state, read-InTransfer,
}

module _ (wire : Wire) (ok : IsWire wire) (content : ℕ → ℕ) (before : Buf) (blk la : ℕ)
    (pos : 0 < blk) where
  -- The rest of the file, when `k` blocks are in.
  rounds-rest :
      (xs : List Sending) (k total : ℕ) (n : Net)
      → InTransfer content before blk la wire.dport wire.sport k n
      → OnLine wire n
      → n.net_state ≡ netloop_continue
      → AllSend xs
      → Sends content blk k (map packet_of xs) total
      → blk * (k + length xs) < 2 ^ 32
      → la + blk * (k + length xs) ≤ 2 ^ 32
      → (m : Net) × ((net_rounds tftpget (map (round_of wire) xs) (running n) ≡ returned total m)
          × Loaded content before la m.ram total)
  unfolding net_rounds after_round
  rounds-rest [] k total n t l going all s fits room = absurd s
  rounds-rest (x ∷ []) k total n t l going all s fits room =
      let arrived = arrives-next wire ok content before blk la pos k x n t l all.0 s.0 in
      let end =
        next-short wire ok content before blk la pos k x n t arrived.1.1 s.1
          (rw (add-one k) at fits) (rw (add-one k) at room) in
      let r =
        round-done wire ok content before blk la x n
          (next_state wire ok content before blk la pos x n) (blk * k + x.bytes) arrived.0
          arrived.1.0 end in
      rw s.2 (r.0, (ap (λ o. after_round tftpget o) r.1.0, r.1.1))
  rounds-rest (x ∷ y ∷ ys) k total n t l going all s fits room =
      let same : k + suc (suc (length ys)) ≡ suc k + suc (length ys) = omega arith in
      let more : blk * suc k ≤ blk * (suc k + suc (length ys)) = grind arith in
      let fits' : blk * (suc k + suc (length ys)) < 2 ^ 32 = rw same at fits in
      let room' : la + blk * (suc k + suc (length ys)) ≤ 2 ^ 32 = rw same at room in
      let arrived = arrives-next wire ok content before blk la pos k x n t l all.0 s.0 in
      let step =
        next-full wire ok content before blk la pos k x n t going arrived.1.1 s.1 (omega arith)
          (omega arith) in
      let n2 : Net = record (next_state wire ok content before blk la pos x n) {
        reads = (next_state wire ok content before blk la pos x n).reads + 1;
      } in
      let rest =
        rounds-rest (y ∷ ys) (suc k) total n2
          (read-InTransfer wire ok content before blk la pos (suc k)
            (next_state wire ok content before blk la pos x n) step.0)
          (read-Live wire.platform wire.ticks wire.start wire.span wire.device wire.ip ok.steady
            (next_state wire ok content before blk la pos x n) arrived.1.0)
          step.1 all.1 s.2 fits' room' in
      let ran =
        round-running wire ok x n (next_state wire ok content before blk la pos x n) arrived.0
          arrived.1.0 step.1 in
      (
        rest.0,
        (ap (λ o. net_rounds tftpget (map (round_of wire) (y ∷ ys)) o) ran ∙ rest.1.0, rest.1.1),
      )

  rounds-first :
      (x : Sending) (xs : List Sending) (total : ℕ) (n : Net)
      → Awaiting content before blk la wire.dport wire.sport n
      → OnLine wire n
      → n.net_state ≡ netloop_continue
      → AllSend (x ∷ xs)
      → Sends content blk 0 (map packet_of (x ∷ xs)) total
      → blk * (1 + length xs) < 2 ^ 32
      → la + blk * (1 + length xs) ≤ 2 ^ 32
      → (m : Net) × ((net_rounds tftpget (map (round_of wire) (x ∷ xs)) (running n)
            ≡ returned total m)
          × Loaded content before la m.ram total)
  unfolding net_rounds after_round
  rounds-first x [] total n w l going all s fits room =
      let arrived = arrives-first wire ok content before blk la pos x n w l all.0 s.0 in
      let end = first-short wire ok content before blk la pos x n w arrived.1.1 s.1 fits room in
      let after = first_state wire ok content before blk la pos x n in
      let r =
        round-done wire ok content before blk la x n after (blk * 0 + x.bytes) arrived.0 arrived.1.0
          end in
      rw s.2 (r.0, (ap (λ o. after_round tftpget o) r.1.0, r.1.1))
  rounds-first x (y ∷ ys) total n w l going all s fits room =
      let one : blk * 1 ≤ blk * (1 + suc (length ys)) = grind arith in
      let arrived = arrives-first wire ok content before blk la pos x n w l all.0 s.0 in
      let step =
        first-full wire ok content before blk la pos x n w going arrived.1.1 s.1 (omega arith)
          (omega arith) in
      let after = first_state wire ok content before blk la pos x n in
      let n2 : Net = record after { reads = after.reads + 1 } in
      let rest =
        rounds-rest (y ∷ ys) 1 total n2
          (read-InTransfer wire ok content before blk la pos 1 after step.0)
          (read-Live wire.platform wire.ticks wire.start wire.span wire.device wire.ip ok.steady
            after arrived.1.0)
          step.1 all.1 s.2 fits room in
      let ran = round-running wire ok x n after arrived.0 arrived.1.0 step.1 in
      (
        rest.0,
        (ap (λ o. net_rounds tftpget (map (round_of wire) (y ∷ ys)) o) ran ∙ rest.1.0, rest.1.1),
      )

-- When the request is out, a clock that stays within one timeout sees the data packets of a file
-- come in, one frame in each round of the loop, from the first one to the short last one; each frame
-- is as a sender that runs the same `udp_prepare` builds it (an unfragmented IP header of five words
-- with a valid checksum, and no UDP checksum), and all blocks at full size fit below 2 ^ 32 from the
-- load address on. Then the loop ends with success in the round of the last packet and returns the
-- size of the file; the file's bytes stand in memory from the load address on, and every byte
-- outside of them is as it was before.
pub net_rounds-download :
    (wire : Wire) (content : ℕ → ℕ) (before : Buf) (blk la total : ℕ) (xs : List Sending) (n : Net)
    → IsWire wire
    → 0 < blk
    → Awaiting content before blk la wire.dport wire.sport n
    → OnLine wire n
    → n.net_state ≡ netloop_continue
    → AllSend xs
    → Sends content blk 0 (map packet_of xs) total
    → blk * length xs < 2 ^ 32
    → la + blk * length xs ≤ 2 ^ 32
    → (m : Net) × ((net_rounds tftpget (map (round_of wire) xs) (running n) ≡ returned total m)
        × Loaded content before la m.ram total)
net_rounds-download wire content before blk la total [] n ok pos w l going all s fits room =
    absurd s
net_rounds-download wire content before blk la total (x ∷ xs) n ok pos w l going all s fits room =
    rounds-first wire ok content before blk la pos x xs total n w l going all s
      (omega (arith, fits)) (omega (arith, room))
