-- ===== src/Net/Tftp/Transfer.antt =====
-- The state of a TFTP download between two blocks, and the step from one to the next.
use mathlib.Core.Path.{subst}
use non_os_lite.Prelude.{
  Bool-cases, Buf, ap, arith, copy, false, inl, inr, leb, le→ltb, ltb, lt→ltb, refl, sub32, suc,
  sym, true, u32, ℕ, ◌%◌, ◌&&◌, ◌*◌, ◌+◌, ◌-◌, ◌<◌, ◌^◌, ◌∙◌, ◌≡◌, ◌≤◌, ◌⊎◌,
}
use non_os_lite.Net.State.{LoopState, Net, Tftp, data_state, netloop_success, tftp_timeout}
use non_os_lite.Net.Clock.{get_timer}
use non_os_lite.Net.Keeps.{Keeps, net_set_timeout-Keeps, tftp_send-Keeps}
use non_os_lite.Net.Tftp.Store.{store_block, store_offset, tftp_complete}
use non_os_lite.Net.Tftp.Receive.{accept_block, note_block, take_block, tftp_timeout_count}
use non_os_lite.Net.Tftp.Offset.{store_offset-next, wrap_offset}

-- `len` bytes of the buffer from `p` on are those of the file from `at` on.
abbrev pub Holds : (ℕ → ℕ) → Buf → ℕ → ℕ → ℕ → Type 0
Holds content m p at len = (i : ℕ) → i < len → m (p + i) ≡ content (at + i)

-- The first `size` bytes of the file stand in memory at `la`, and every byte of memory outside of them
-- is as it was before.
abbrev pub Loaded : (ℕ → ℕ) → Buf → ℕ → Buf → ℕ → Type 0
Loaded content before la ram size =
    ((i : ℕ) → i < size → ram (la + i) ≡ content i)
    × ((a : ℕ) → (a < la) ⊎ (la + size ≤ a) → ram a ≡ before a)

-- Copying the next bytes behind those that are loaded.
Loaded-copy :
    (content : ℕ → ℕ) (before : Buf) (la : ℕ) (ram m : Buf) (p at len : ℕ)
    → Loaded content before la ram at
    → Holds content m p at len
    → Loaded content before la (copy ram (la + at) m p len) (at + len)
Loaded-copy content before la ram m p at len old new = (inside_lem, outside_lem)
  where
    inside_lem : (i : ℕ) → i < at + len → copy ram (la + at) m p len (la + i) ≡ content i
    inside_lem i h = elim (Bool-cases (ltb i at)) [
      | inl earlier ↦ ground (arith, old.0 i)
      | inr behind ↦
          let e : at + (i - at) ≡ i = ground arith in
          let d : la + i - (la + at) ≡ i - at = omega arith in
          let inside : (leb (la + at) (la + i) && ltb (la + i) (la + at + len)) ≡ true =
            ground arith in
          rw (inside, d) (new (i - at) (ground arith) ∙ ap content e)
    ]

    outside_lem :
        (a : ℕ) → (a < la) ⊎ (la + (at + len) ≤ a) → copy ram (la + at) m p len a ≡ before a
    outside_lem a h =
        let outside : (leb (la + at) a && ltb a (la + at + len)) ≡ false = ground (arith, h) in
        let far : (a < la) ⊎ (la + at ≤ a) = elim h [
          | inl low ↦ inl low
          | inr high ↦ inr (omega (arith, high))
        ] in
        rw outside (old.1 a far)

module _ (content : ℕ → ℕ) (before : Buf) (blk la dport sport : ℕ) where
  -- `k` whole blocks are in.
  pub record InTransfer (k : ℕ) (n : Net) : Type 0 where
    pub in_data : n.tftp.state ≡ data_state
    pub last : n.tftp.last_block ≡ k % 65536
    pub wrap : n.tftp.block_wrap_offset ≡ wrap_offset blk k
    pub size : n.boot_file_xfer_size ≡ blk * k
    pub blk_size : n.tftp.blk_size ≡ blk
    pub our_end : n.tftp.our_port ≡ dport
    pub their_end : n.tftp.remote_port ≡ sport
    pub load_addr : n.load_addr ≡ la
    pub loaded : Loaded content before la n.ram (blk * k)

  -- The file of `size` bytes is in memory, and the loop is told.
  pub record Complete (size : ℕ) (n : Net) : Type 0 where
    pub success : n.net_state ≡ netloop_success
    pub xfer_size : n.boot_file_xfer_size ≡ size
    pub all_loaded : Loaded content before la n.ram size

  -- The block with the index `k` has been announced, and is the one to store.
  pub record Announced (k : ℕ) (n : Net) : Type 0 where
    pub in_data : n.tftp.state ≡ data_state
    pub block : n.tftp.block ≡ suc k % 65536
    pub wrap : n.tftp.block_wrap_offset ≡ wrap_offset blk (suc k)
    pub size : n.boot_file_xfer_size ≡ blk * k
    pub blk_size : n.tftp.blk_size ≡ blk
    pub our_end : n.tftp.our_port ≡ dport
    pub their_end : n.tftp.remote_port ≡ sport
    pub load_addr : n.load_addr ≡ la
    pub loaded : Loaded content before la n.ram (blk * k)

  -- `len` more bytes are in, and the next block is the one behind `k`.
  record Taken (k len : ℕ) (state : LoopState) (n : Net) : Type 0 where
    in_data : n.tftp.state ≡ data_state
    last : n.tftp.last_block ≡ suc k % 65536
    wrap : n.tftp.block_wrap_offset ≡ wrap_offset blk (suc k)
    size : n.boot_file_xfer_size ≡ blk * k + len
    blk_size : n.tftp.blk_size ≡ blk
    our_end : n.tftp.our_port ≡ dport
    their_end : n.tftp.remote_port ≡ sport
    load_addr : n.load_addr ≡ la
    loaded : Loaded content before la n.ram (blk * k + len)
    unchanged : n.net_state ≡ state

  -- What `store_block` does with the next block.
  store_block-next :
      (k : ℕ) (n : Net) (m : Buf) (p len : ℕ)
      → Announced k n
      → Holds content m p (blk * k) len
      → blk * suc k < 2 ^ 32
      → len ≤ blk
      → 0 < blk
      → la + blk * suc k ≤ 2 ^ 32
      → ((store_block (sub32 n.tftp.block 1) m p len n).boot_file_xfer_size ≡ blk * k + len)
        × Loaded content before la
            (store_block (sub32 n.tftp.block 1) m p len n).ram
            (blk * k + len)
  unfolding store_block
  store_block-next k n m p len a new fits short pos room =
      let offset : store_offset (sub32 n.tftp.block 1) n ≡ blk * k =
        ap (λ b. store_offset (sub32 b 1) n) a.block
        ∙ store_offset-next blk k n a.blk_size a.wrap fits in
      let grown : blk * suc k ≡ blk * k + blk = grind arith in
      let sum : u32 (blk * k + len) ≡ blk * k + len = omega arith in
      let address : u32 (n.load_addr + blk * k) ≡ la + blk * k = omega (arith, a.load_addr) in
      rw (offset, sum, address)
        (ground (arith, a.size), Loaded-copy content before la n.ram m p (blk * k) len a.loaded new)

  note_block-Announced : (k : ℕ) (n : Net) → Announced k n → Announced k (note_block n)
  unfolding note_block
  note_block-Announced k n a =
      let n1 : Net = record n {
        tftp = record n.tftp { last_block = n.tftp.block; timeout_count_max = tftp_timeout_count };
      } in
      let kept = net_set_timeout-Keeps n1.tftp.timeout_msecs tftp_timeout n1 in ground (arith, kept)

  note_block-last :
      (n : Net)
      → ((note_block n).tftp.last_block ≡ n.tftp.block) × ((note_block n).net_state ≡ n.net_state)
  unfolding note_block
  note_block-last n =
      let n1 : Net = record n {
        tftp = record n.tftp { last_block = n.tftp.block; timeout_count_max = tftp_timeout_count };
      } in
      let kept = net_set_timeout-Keeps n1.tftp.timeout_msecs tftp_timeout n1 in ground (arith, kept)

  module _ (k : ℕ) (m : Buf) (p len : ℕ) (new : Holds content m p (blk * k) len)
      (fits : blk * suc k < 2 ^ 32) (short : len ≤ blk) (pos : 0 < blk)
      (room : la + blk * suc k ≤ 2 ^ 32) where
    store_block-Taken :
        (n : Net)
        → Announced k n
        → n.tftp.last_block ≡ n.tftp.block
        → Taken k len n.net_state (store_block (sub32 n.tftp.block 1) m p len n)
    store_block-Taken n a last =
        let next = store_block-next k n m p len a new fits short pos room in
        record {
          in_data = unfold store_block in a.in_data;
          last = unfold store_block in last ∙ a.block;
          wrap = unfold store_block in a.wrap;
          size = next.0;
          blk_size = unfold store_block in a.blk_size;
          our_end = unfold store_block in a.our_end;
          their_end = unfold store_block in a.their_end;
          load_addr = unfold store_block in a.load_addr;
          loaded = next.1;
          unchanged = unfold store_block in refl;
        }

    Taken-Keeps : {s : LoopState} {n n' : Net} → Taken k len s n → Keeps n n' → Taken k len s n'
    Taken-Keeps t kept = record {
      in_data = ap (λ (x : Tftp). x.state) kept.same_tftp ∙ t.in_data;
      last = ap (λ (x : Tftp). x.last_block) kept.same_tftp ∙ t.last;
      wrap = ap (λ (x : Tftp). x.block_wrap_offset) kept.same_tftp ∙ t.wrap;
      size = kept.same_size ∙ t.size;
      blk_size = ap (λ (x : Tftp). x.blk_size) kept.same_tftp ∙ t.blk_size;
      our_end = ap (λ (x : Tftp). x.our_port) kept.same_tftp ∙ t.our_end;
      their_end = ap (λ (x : Tftp). x.remote_port) kept.same_tftp ∙ t.their_end;
      load_addr = kept.same_load_addr ∙ t.load_addr;
      loaded = subst (λ r. Loaded content before la r (blk * k + len)) (sym kept.same_ram) t.loaded;
      unchanged = kept.same_net_state ∙ t.unchanged;
    }

    take_block-Taken : (n : Net) → Announced k n → Taken k len n.net_state (take_block m p len n)
    take_block-Taken n a =
        let a1 = note_block-Announced k n a in
        let (last, same) = note_block-last n in
        let stored = store_block-Taken (note_block n) a1 (last ∙ a.block ∙ sym a1.block) in
        unfold take_block in
        Taken-Keeps
          (subst
            (λ s.
              Taken k len s
                (store_block (sub32 (note_block n).tftp.block 1) m p len (note_block n)))
            same stored)
          (tftp_send-Keeps _)

  tftp_complete-Complete :
      (k len : ℕ) (s : LoopState) (n : Net)
      → Taken k len s n
      → Complete (blk * k + len) (tftp_complete n)
  unfolding tftp_complete get_timer
  tftp_complete-Complete k len s n t = record {
    success = refl;
    xfer_size = t.size;
    all_loaded = t.loaded;
  }

  Taken-InTransfer : (k : ℕ) (s : LoopState) (n : Net) → Taken k blk s n → InTransfer (suc k) n
  Taken-InTransfer k s n t =
      let e : blk * suc k ≡ blk * k + blk = grind arith in
      record {
        in_data = t.in_data;
        last = t.last;
        wrap = t.wrap;
        size = t.size ∙ sym e;
        blk_size = t.blk_size;
        our_end = t.our_end;
        their_end = t.their_end;
        load_addr = t.load_addr;
        loaded = subst (Loaded content before la n.ram) (sym e) t.loaded;
      }

  module _ (k : ℕ) (m : Buf) (p : ℕ) (fits : blk * suc k < 2 ^ 32) (pos : 0 < blk)
      (room : la + blk * suc k ≤ 2 ^ 32) where
    pub accept_block-full :
        (n : Net)
        → Announced k n
        → Holds content m p (blk * k) blk
        → InTransfer (suc k) (accept_block m p blk n)
          × ((accept_block m p blk n).net_state ≡ n.net_state)
    accept_block-full n a new =
        let taken = take_block-Taken k m p blk new fits (omega arith) pos room n a in
        let runs : ltb blk (take_block m p blk n).tftp.blk_size ≡ false =
          rw taken.blk_size (le→ltb blk blk (omega arith)) in
        unfold accept_block in rw runs (Taken-InTransfer k _ _ taken, taken.unchanged)

    pub accept_block-short :
        (n : Net) (len : ℕ)
        → Announced k n
        → Holds content m p (blk * k) len
        → len < blk
        → Complete (blk * k + len) (accept_block m p len n)
    accept_block-short n len a new short =
        let taken = take_block-Taken k m p len new fits (omega arith) pos room n a in
        let ends : ltb len (take_block m p len n).tftp.blk_size ≡ true =
          rw taken.blk_size (lt→ltb len blk short) in
        unfold accept_block in rw ends (tftp_complete-Complete k len _ _ taken)
