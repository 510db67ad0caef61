-- ===== src/Net/Tftp/File.antt =====
-- The download of a file over TFTP, from the first data packet to the last.
use mathlib.Core.Path.{subst}
use native.Mathlib.Numerals.{add-one}
use non_os_lite.Prelude.{
  Buf, List, [], arith, false, get_be16, inl, inr, length, ltb, suc, true, ℕ, ◌%◌, ◌*◌, ◌+◌, ◌-◌,
  ◌<◌, ◌^◌, ◌∙◌, ◌∷◌, ◌≡◌, ◌≤◌,
}
use non_os_lite.Net.State.{Net}
use non_os_lite.Net.Tftp.Receive.{accept_block, handle_data, tftp_accepts, tftp_receive}
use non_os_lite.Net.Tftp.Transfer.{
  Complete, Holds, InTransfer, accept_block-full, accept_block-short,
}
use non_os_lite.Net.Tftp.Download.{
  Awaiting, begun, begun-Announced, handle_data-first, handle_data-next, noted, noted-Announced,
}

-- A UDP payload: the frame, the offset of the payload, and the number of bytes behind the TFTP header.
pub record Packet : Type 0 where
  pub frame : Buf
  pub at : ℕ
  pub size : ℕ

-- The data packet for the block with the index `k`.
pub record IsData (content : ℕ → ℕ) (blk k : ℕ) (q : Packet) : Type 0 where
  pub opcode : get_be16 q.frame q.at ≡ 3
  pub number : get_be16 q.frame (q.at + 2) ≡ suc k % 65536
  pub body : Holds content q.frame (q.at + 2 + 2) (blk * k) q.size

-- The packets of a file of `total` bytes, from the block `k` on: whole blocks, and a short one at the
-- end.
abbrev pub Sends : (ℕ → ℕ) → ℕ → ℕ → List Packet → ℕ → Type 0
Sends content blk k [] total = ⊥
Sends content blk k (q ∷ []) total =
    IsData content blk k q × (q.size < blk) × (total ≡ blk * k + q.size)
Sends content blk k (q ∷ r ∷ rs) total =
    IsData content blk k q × (q.size ≡ blk) × Sends content blk (suc k) (r ∷ rs) total

-- The handler at each packet, in order, from the port `sport` to `dport`.
pub receive_all : ℕ → ℕ → List Packet → Net → Net
receive_all dport sport [] n = n
receive_all dport sport (q ∷ qs) n =
    receive_all dport sport qs (tftp_receive q.frame q.at dport sport (q.size + 4) n)

module _ (content : ℕ → ℕ) (before : Buf) (blk la dport sport : ℕ) (pos : 0 < blk) where
  pub accepted :
      (n : Net)
      → n.tftp.our_port ≡ dport
      → n.tftp.remote_port ≡ sport
      → tftp_accepts dport sport n ≡ true
  unfolding tftp_accepts
  accepted n a b = rw (a, b) (ground arith)

  -- A data packet goes to `handle_data`.
  tftp_receive-data :
      (k : ℕ) (q : Packet) (n : Net)
      → IsData content blk k q
      → tftp_accepts dport sport n ≡ true
      → tftp_receive q.frame q.at dport sport (q.size + 4) n
        ≡ handle_data q.frame (q.at + 2) sport q.size n
  unfolding tftp_receive
  tftp_receive-data k q n d ok =
      let long : ltb (q.size + 4) 2 ≡ false = ground arith in
      let longer : ltb (q.size + 4 - 2) 2 ≡ false = ground arith in
      let rest : q.size + 4 - 4 ≡ q.size = omega arith in rw (ok, long, d.opcode, longer, rest)

  -- In a running transfer the handler stores the next block.
  pub tftp_receive-next :
      (k : ℕ) (q : Packet) (n : Net)
      → InTransfer content before blk la dport sport k n
      → IsData content blk k q
      → tftp_receive q.frame q.at dport sport (q.size + 4) n
        ≡ accept_block q.frame (q.at + 2 + 2) q.size (noted q.frame (q.at + 2) n)
  tftp_receive-next k q n t d =
      tftp_receive-data k q n d (accepted n t.our_end t.their_end)
      ∙ handle_data-next content before blk la dport sport k q.frame (q.at + 2) q.size n t d.number

  -- The rest of the file, when `k` blocks are in.
  receive_all-rest :
      (qs : List Packet) (k total : ℕ) (n : Net)
      → InTransfer content before blk la dport sport k n
      → Sends content blk k qs total
      → blk * (k + length qs) < 2 ^ 32
      → la + blk * (k + length qs) ≤ 2 ^ 32
      → Complete content before blk la dport sport total (receive_all dport sport qs n)
  unfolding receive_all
  receive_all-rest [] k total n t s fits room = absurd s
  receive_all-rest (q ∷ []) k total n t s fits room =
      let fits' : blk * suc k < 2 ^ 32 = rw (add-one k) at fits in
      let room' : la + blk * suc k ≤ 2 ^ 32 = rw (add-one k) at room in
      let a =
        noted-Announced content before blk la dport sport k q.frame (q.at + 2) n t s.0.number
          fits' in
      let done =
        accept_block-short content before blk la dport sport k q.frame (q.at + 2 + 2) fits' pos
          room' _ q.size a s.0.body s.1 in
      rw (tftp_receive-next k q n t s.0, s.2) done
  receive_all-rest (q ∷ r ∷ rs) k total n t s fits room =
      let same : k + suc (suc (length rs)) ≡ suc k + suc (length rs) = omega arith in
      let more : blk * suc k ≤ blk * (suc k + suc (length rs)) = grind arith in
      let fits' : blk * (suc k + suc (length rs)) < 2 ^ 32 = rw same at fits in
      let room' : la + blk * (suc k + suc (length rs)) ≤ 2 ^ 32 = rw same at room in
      let a =
        noted-Announced content before blk la dport sport k q.frame (q.at + 2) n t s.0.number
          (omega arith) in
      let body : Holds content q.frame (q.at + 2 + 2) (blk * k) blk =
        subst (Holds content q.frame (q.at + 2 + 2) (blk * k)) s.1 s.0.body in
      let going =
        accept_block-full content before blk la dport sport k q.frame (q.at + 2 + 2) (omega arith)
          pos (omega arith) _ a body in
      rw (tftp_receive-next k q n t s.0, s.1)
        (receive_all-rest (r ∷ rs) (suc k) total _ going.0 s.2 fits' room')

  opened :
      (n : Net) → Awaiting content before blk la dport sport n → tftp_accepts dport sport n ≡ true
  unfolding tftp_accepts
  opened n w = elim w.asked [
    | inl e ↦ rw (e, w.our_end) (ground arith)
    | inr e ↦ rw (e.1, w.our_end) (ground arith)
  ]

  -- The first block, of whatever size.
  pub tftp_receive-first :
      (q : Packet) (n : Net)
      → Awaiting content before blk la dport sport n
      → IsData content blk 0 q
      → tftp_receive q.frame q.at dport sport (q.size + 4) n
        ≡ accept_block q.frame (q.at + 2 + 2) q.size (begun sport (noted q.frame (q.at + 2) n))
  tftp_receive-first q n w d =
      tftp_receive-data 0 q n d (opened n w)
      ∙ handle_data-first content before blk la dport sport q.frame (q.at + 2) q.size n w d.number

-- Once the request is out, the data packets of a file of `total` bytes, handled in order from the
-- first one to the short last one, set the transferred size to `total`, and end the loop with
-- success; the file's bytes stand in memory from the load address on, and every byte outside of them
-- is as it was before (`before`). The file may have any number of blocks that at full size fit below
-- 2 ^ 32 from the load address on, so that the 16-bit block number may wrap around.
pub receive_all-Complete :
    (content : ℕ → ℕ) (before : Buf) (blk la dport sport : ℕ) (qs : List Packet) (total : ℕ)
    (n : Net)
    → 0 < blk
    → Awaiting content before blk la dport sport n
    → Sends content blk 0 qs total
    → blk * length qs < 2 ^ 32
    → la + blk * length qs ≤ 2 ^ 32
    → Complete content before blk la dport sport total (receive_all dport sport qs n)
unfolding receive_all
receive_all-Complete content before blk la dport sport [] total n pos w s fits room = absurd s
receive_all-Complete content before blk la dport sport (q ∷ []) total n pos w s fits room =
    let a = begun-Announced content before blk la dport sport q.frame (q.at + 2) n w s.0.number in
    let done =
      accept_block-short content before blk la dport sport 0 q.frame (q.at + 2 + 2) fits pos room _
        q.size a s.0.body s.1 in
    rw (tftp_receive-first content before blk la dport sport pos q n w s.0, s.2) done
receive_all-Complete content before blk la dport sport (q ∷ r ∷ rs) total n pos w s fits room =
    let same : suc (suc (length rs)) ≡ 1 + suc (length rs) = omega arith in
    let one : blk * 1 ≤ blk * (1 + suc (length rs)) = grind arith in
    let fits' : blk * (1 + suc (length rs)) < 2 ^ 32 = rw same at fits in
    let room' : la + blk * (1 + suc (length rs)) ≤ 2 ^ 32 = rw same at room in
    let a = begun-Announced content before blk la dport sport q.frame (q.at + 2) n w s.0.number in
    let body : Holds content q.frame (q.at + 2 + 2) (blk * 0) blk =
      subst (Holds content q.frame (q.at + 2 + 2) (blk * 0)) s.1 s.0.body in
    let going =
      accept_block-full content before blk la dport sport 0 q.frame (q.at + 2 + 2) (omega arith) pos
        (omega arith) _ a body in
    rw (tftp_receive-first content before blk la dport sport pos q n w s.0, s.1)
      (receive_all-rest content before blk la dport sport pos (r ∷ rs) 1 total _ going.0 s.2 fits'
        room')
