-- ===== src/Net/Loop/Live.antt =====
-- A transfer that no timeout disturbs: the clock rises, and everything happens within one timeout.
use mathlib.Core.Path.{ap₂, subst}
use native.Mathlib.Numerals.{add-one}
use non_os_lite.Prelude.{
  Bool, Buf, ap, arith, false, if◌then◌else◌, ltb, ne→==, refl, some, sub32, suc, sym, true, u32, ℕ,
  ◌*◌, ◌+◌, ◌/◌, ◌<◌, ◌^◌, ◌∙◌, ◌≡◌, ◌≢◌, ◌≤◌,
}
use non_os_lite.Net.State.{
  ArpState, Device, Mac, Net, Platform, Tftp, mac_eq, null_mac, tftp_handler, tftp_timeout,
}
use non_os_lite.Net.Clock.{elapsed, get_timer, tick_to_time}
use non_os_lite.Net.Keeps.{tftp_send-Keeps}
use non_os_lite.Net.Quick.{tftp_send-Quick}
use non_os_lite.Net.Send.{net_set_timeout}
use non_os_lite.Net.Deferral.{Unicast}
use non_os_lite.Net.Tftp.Store.{new_transfer, store_block, tftp_complete, update_block_number}
use non_os_lite.Net.Tftp.Send.{tftp_send}
use non_os_lite.Net.Tftp.Receive.{accept_block, note_block, take_block}
use non_os_lite.Net.Tftp.Download
use non_os_lite.Net.Tftp.Download.{noted}
use non_os_lite.Net.Loop.{timeout_check}

-- What `get_timer(0)` returns at its n-th call.
abbrev pub clock : Platform → (ℕ → ℕ) → ℕ → ℕ
clock p ticks n = elapsed (tick_to_time p (ticks n)) 0

-- The clock does not go back, and stays within `span` units of `start`.
pub record Steady (p : Platform) (ticks : ℕ → ℕ) (start span : ℕ) : Type 0 where
  pub rises : (k : ℕ) → clock p ticks k ≤ clock p ticks (suc k)
  pub bounded : (k : ℕ) → clock p ticks k ≤ start + span
  pub no_wrap : start + span < 2 ^ 32

timeout_check-early :
    (n : Net)
    → n.time_handler ≡ tftp_timeout
    → sub32 (clock n.platform n.ticks n.reads) n.time_start ≤ n.time_delta
    → timeout_check n ≡ record n { reads = n.reads + 1 }
unfolding timeout_check get_timer
timeout_check-early n timer early = ground arith

module _ (p : Platform) (ticks : ℕ → ℕ) (start span : ℕ) (dev : Device) (ip : ℕ) where
  -- A TFTP transfer with a device and the server's address known, its timeout not shorter than `span`.
  pub record Live (n : Net) : Type 0 where
    pub same_platform : n.platform ≡ p
    pub same_ticks : n.ticks ≡ ticks
    pub device : n.eth_current ≡ some dev
    pub address : n.our_ip ≡ ip
    pub no_vlan : n.our_vlan ≡ 0xffff
    pub handler : n.udp_handler ≡ tftp_handler
    pub no_wait : n.arp.wait_packet_ip ≡ 0
    pub known : mac_eq n.server_mac null_mac ≡ false
    pub server : Unicast n.tftp.remote_ip
    pub timer : n.time_handler ≡ tftp_timeout
    pub begun : start ≤ n.time_start
    pub since : n.time_start ≤ clock p ticks n.reads
    pub not_shorter : span ≤ n.time_delta
    pub some_msecs : n.tftp.timeout_msecs ≢ 0
    pub long : span ≤ u32 (n.tftp.timeout_msecs * p.sys_hz) / 1000

  module _ (steady : Steady p ticks start span) where
    -- The test of the timeout reads the clock and does nothing else.
    pub timeout_check-Live : (n : Net) → Live n → timeout_check n ≡ record n { reads = n.reads + 1 }
    timeout_check-Live n l =
        let now : clock n.platform n.ticks n.reads ≡ clock p ticks n.reads =
          ap₂ (λ q t. clock q t n.reads) l.same_platform l.same_ticks in
        timeout_check-early n l.timer (
          omega
            (arith, now, steady.bounded n.reads, steady.no_wrap, l.begun, l.since, l.not_shorter))

    pub read-Live : (n : Net) → Live n → Live (record n { reads = n.reads + 1 })
    read-Live n l =
        let next = steady.rises n.reads in
        record {
          same_platform = l.same_platform;
          same_ticks = l.same_ticks;
          device = l.device;
          address = l.address;
          no_vlan = l.no_vlan;
          handler = l.handler;
          no_wait = l.no_wait;
          known = l.known;
          server = l.server;
          timer = l.timer;
          begun = l.begun;
          since = rw (add-one n.reads) (omega (arith, l.since, next));
          not_shorter = l.not_shorter;
          some_msecs = l.some_msecs;
          long = l.long;
        }

    pub noted-Live : (m : Buf) (q : ℕ) (n : Net) → Live n → Live (noted m q n)
    unfolding update_block_number
    noted-Live m q n l = ground arith

    pub begun-Live : (src : ℕ) (n : Net) → Live n → Live (Download.begun src n)
    unfolding new_transfer
    begun-Live src n l = ground arith

    note_block-Live : (n : Net) → Live n → Live (note_block n)
    unfolding note_block net_set_timeout get_timer
    note_block-Live n l =
        let next = steady.rises n.reads in
        let now : clock n.platform n.ticks n.reads ≡ clock p ticks n.reads =
          ap₂ (λ q t. clock q t n.reads) l.same_platform l.same_ticks in
        rw (ne→== n.tftp.timeout_msecs 0 l.some_msecs) (record {
          same_platform = l.same_platform;
          same_ticks = l.same_ticks;
          device = l.device;
          address = l.address;
          no_vlan = l.no_vlan;
          handler = l.handler;
          no_wait = l.no_wait;
          known = l.known;
          server = l.server;
          timer = refl;
          begun = omega (arith, now, l.begun, l.since);
          since = rw (add-one n.reads) (omega (arith, now, next));
          not_shorter =
              subst (λ (q : Platform). span ≤ u32 (n.tftp.timeout_msecs * q.sys_hz) / 1000)
                (sym l.same_platform) l.long;
          some_msecs = l.some_msecs;
          long = l.long;
        })

    store_block-Live :
        (block : ℕ) (m : Buf) (q len : ℕ) (n : Net) → Live n → Live (store_block block m q len n)
    unfolding store_block
    store_block-Live block m q len n l = ground arith

    tftp_send-Live : (n : Net) → Live n → Live (tftp_send n)
    tftp_send-Live n l =
        let quick = tftp_send-Quick n l.server l.known in
        let keeps = tftp_send-Keeps n in
        record {
          same_platform = quick.same_platform ∙ l.same_platform;
          same_ticks = quick.same_ticks ∙ l.same_ticks;
          device = keeps.same_eth_current ∙ l.device;
          address = keeps.same_our_ip ∙ l.address;
          no_vlan = quick.same_vlan ∙ l.no_vlan;
          handler = keeps.same_udp_handler ∙ l.handler;
          no_wait = ap (λ (a : ArpState). a.wait_packet_ip) quick.same_arp ∙ l.no_wait;
          known = ap (λ (a : Mac). mac_eq a null_mac) quick.same_server_mac ∙ l.known;
          server = subst (λ (t : Tftp). Unicast t.remote_ip) (sym keeps.same_tftp) l.server;
          timer = quick.same_time_handler ∙ l.timer;
          begun = subst (λ t. start ≤ t) (sym quick.same_time_start) l.begun;
          since = rw (quick.same_time_start, quick.same_reads) l.since;
          not_shorter = subst (λ t. span ≤ t) (sym quick.same_time_delta) l.not_shorter;
          some_msecs = subst (λ (t : Tftp). t.timeout_msecs ≢ 0) (sym keeps.same_tftp) l.some_msecs;
          long =
              subst (λ (t : Tftp). span ≤ u32 (t.timeout_msecs * p.sys_hz) / 1000)
                (sym keeps.same_tftp) l.long;
        }

    take_block-Live : (m : Buf) (q len : ℕ) (n : Net) → Live n → Live (take_block m q len n)
    unfolding take_block
    take_block-Live m q len n l = tftp_send-Live _ (
        store_block-Live (sub32 (note_block n).tftp.block 1) m q len (note_block n)
          (note_block-Live n l))

    tftp_complete-Live : (n : Net) → Live n → Live (tftp_complete n)
    unfolding tftp_complete get_timer
    tftp_complete-Live n l =
        let next = read-Live n l in
        record {
          same_platform = l.same_platform;
          same_ticks = l.same_ticks;
          device = l.device;
          address = l.address;
          no_vlan = l.no_vlan;
          handler = l.handler;
          no_wait = l.no_wait;
          known = l.known;
          server = l.server;
          timer = l.timer;
          begun = l.begun;
          since = next.since;
          not_shorter = l.not_shorter;
          some_msecs = l.some_msecs;
          long = l.long;
        }

    pub accept_block-Live : (m : Buf) (q len : ℕ) (n : Net) → Live n → Live (accept_block m q len n)
    unfolding accept_block
    accept_block-Live m q len n l =
        let taken = take_block-Live m q len n l in
        if-Live (ltb len (take_block m q len n).tftp.blk_size) _ _
          (tftp_complete-Live (take_block m q len n) taken) taken
      where
        if-Live : (b : Bool) (x y : Net) → Live x → Live y → Live (if b then x else y)
        if-Live true x y l k = l
        if-Live false x y l k = k
