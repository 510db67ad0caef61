-- ===== src/Net/Loop/Entry.antt =====
-- The load address: no frame, key or timeout changes it.
use non_os_lite.Prelude.{Buf, List, Option, arith, get_be16, none, refl, some, ℕ, ◌+◌, ◌∙◌, ◌≡◌}
use non_os_lite.Net.State.{Net, Proto, other_proto, ping, tftpget, tftpput}
use non_os_lite.Net.Keeps.{tftp_send-Keeps}
use non_os_lite.Net.Untouched.{arp_receive-Untouched, receive_icmp-Untouched}
use non_os_lite.Net.Clock.{get_timer}
use non_os_lite.Net.Send.{net_clear_handlers, net_set_timeout}
use non_os_lite.Net.Tftp.Send.{tftp_send}
use non_os_lite.Net.Tftp.Start.{tftp_begin, tftp_start}
use non_os_lite.Net.Tftp.Store.{new_transfer, store_block, tftp_complete, update_block_number}
use non_os_lite.Net.Tftp.Receive.{
  accept_block, handle_data, handle_error, handle_oack, note_block, take_block, tftp_receive,
}
use non_os_lite.Net.Receive.{Link, ip_receive, link_receive, net_receive, parse_ether, udp_dispatch}
use non_os_lite.Net.Loop.{Round, net_loop, protocol_start}
use non_os_lite.Net.Loop.Keeping.{Ends, net_loop-keeps}
use non_os_lite.Net.Loop.Inert.{ping_start-Untouched}

tftp_send-load_addr : (n : Net) → (tftp_send n).load_addr ≡ n.load_addr
tftp_send-load_addr n = (tftp_send-Keeps n).same_load_addr

accept_block-load_addr :
    (m : Buf) (p len : ℕ) (n : Net) → (accept_block m p len n).load_addr ≡ n.load_addr
unfolding accept_block take_block note_block store_block tftp_complete net_set_timeout get_timer
accept_block-load_addr m p len n = grind (arith, tftp_send-load_addr)

-- The steps of `handle_data` before a block is accepted.
update_block_number-load_addr : (n : Net) → (update_block_number n).load_addr ≡ n.load_addr
unfolding update_block_number
update_block_number-load_addr n = ground arith

new_transfer-load_addr : (n : Net) → (new_transfer n).load_addr ≡ n.load_addr
unfolding new_transfer
new_transfer-load_addr n = refl

handle_data-load_addr :
    (m : Buf) (p src len : ℕ) (n : Net) → (handle_data m p src len n).load_addr ≡ n.load_addr
unfolding handle_data
handle_data-load_addr m p src len n =
    grind (arith, accept_block-load_addr, update_block_number-load_addr, new_transfer-load_addr)

handle_oack-load_addr :
    (m : Buf) (p src len : ℕ) (n : Net) → (handle_oack m p src len n).load_addr ≡ n.load_addr
unfolding handle_oack
handle_oack-load_addr m p src len n = tftp_send-load_addr _

handle_error-load_addr : (m : Buf) (p : ℕ) (n : Net) → (handle_error m p n).load_addr ≡ n.load_addr
unfolding handle_error
handle_error-load_addr m p n = ground arith

tftp_receive-load_addr :
    (m : Buf) (p dest src len : ℕ) (n : Net)
    → (tftp_receive m p dest src len n).load_addr ≡ n.load_addr
unfolding tftp_receive
tftp_receive-load_addr m p dest src len n =
    grind (arith, handle_data-load_addr, handle_oack-load_addr, handle_error-load_addr)

udp_dispatch-load_addr :
    (et : Buf) (p : ℕ) (n : Net) → (udp_dispatch et p n).load_addr ≡ n.load_addr
unfolding udp_dispatch
udp_dispatch-load_addr et p n = grind (arith, tftp_receive-load_addr)

ip_receive-load_addr :
    (et : Buf) (p len : ℕ) (n : Net) → (ip_receive et p len n).load_addr ≡ n.load_addr
unfolding ip_receive
ip_receive-load_addr et p len n =
    let icmp = (receive_icmp-Untouched et p (get_be16 et (p + 2)) n).same_load_addr in
    grind (arith, icmp, udp_dispatch-load_addr)

link_receive-load_addr :
    (et : Buf) (l : Link) (n : Net) → (link_receive et l n).load_addr ≡ n.load_addr
unfolding link_receive
link_receive-load_addr et l n =
    let arp = (arp_receive-Untouched et l.offset l.rest n).same_load_addr in
    grind (arith, arp, ip_receive-load_addr)

net_receive-load_addr :
    (et : Buf) (len : ℕ) (n : Net) → (net_receive et len n).load_addr ≡ n.load_addr
unfolding net_receive
net_receive-load_addr et len n = parsed (parse_ether et len n)
  where
    parsed :
        (o : Option Link)
        → (elim o as (λ x. Net) [ none ↦ n | some l ↦ link_receive et l n ]).load_addr ≡ n.load_addr
    parsed none = refl
    parsed (some l) = link_receive-load_addr et l n

tftp_begin-load_addr : (n : Net) → (tftp_begin n).load_addr ≡ n.load_addr
unfolding tftp_begin net_set_timeout get_timer
tftp_begin-load_addr n = ground arith

tftp_start-load_addr : (n : Net) → (tftp_start n).load_addr ≡ n.load_addr
unfolding tftp_start
tftp_start-load_addr n = tftp_send-load_addr (tftp_begin n) ∙ tftp_begin-load_addr n

protocol_start-load_addr :
    (protocol : Proto) (n : Net) → (protocol_start protocol n).load_addr ≡ n.load_addr
unfolding protocol_start
protocol_start-load_addr tftpget n = tftp_start-load_addr n
protocol_start-load_addr ping n = (ping_start-Untouched n).same_load_addr
protocol_start-load_addr tftpput n = refl
protocol_start-load_addr (other_proto k) n = refl

clear-load_addr : (n : Net) → (net_clear_handlers n).load_addr ≡ n.load_addr
unfolding net_clear_handlers net_set_timeout
clear-load_addr n = refl

-- No function that NetLoop calls assigns the load address, for any protocol, frames and keys. (The
-- model keeps it apart from the memory that a block is stored to.)
pub net_loop-load_addr :
    (protocol : Proto) (rounds : List Round) (n : Net)
    → Ends (λ m. m.load_addr ≡ n.load_addr) (net_loop protocol rounds n)
net_loop-load_addr protocol rounds n =
    net_loop-keeps protocol (λ m. m.load_addr ≡ n.load_addr)
      (λ et len m h. net_receive-load_addr et len m ∙ h) (λ m k u h. u.same_load_addr ∙ h)
      (λ m h. clear-load_addr m ∙ h) (λ m h. protocol_start-load_addr protocol m ∙ h) rounds n refl
