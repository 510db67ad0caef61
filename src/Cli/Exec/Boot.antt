-- ===== src/Cli/Exec/Boot.antt =====
-- The arguments of `tftpboot`.
use non_os_lite.Prelude.{
  Bool, List, Option, [], false, if◌then◌else◌, ne→==, none, refl, some, true, ℕ, ◌∷◌, ◌≡◌, ◌≢◌,
}
use non_os_lite.Net.Text.{string_to_ip}
use non_os_lite.Net.Arp.{arp_init}
use non_os_lite.Net.State.{Net, Proto, tftpget}
use non_os_lite.Net.Send.{net_clear_handlers, net_set_timeout}
use non_os_lite.Net.Eth.{
  BoardEthInit, absent, eth_env_init, eth_initialize, eth_register, failing, registers,
}
use non_os_lite.Net.Loop.{Round, net_init, net_init_loop, net_loop}
use non_os_lite.Cli.Exec.Run.{Host, Shell, do_tftpboot, tftpboot_options}

net_init_loop-server_ip :
    (n : Net) (ip : ℕ) → net_init_loop (record n { server_ip = ip }) ≡ net_init_loop n
unfolding net_init_loop
net_init_loop-server_ip n ip = refl

either-server_ip :
    (b : Bool) (x y : Net) (ip : ℕ)
    → net_init_loop (if b then record x { server_ip = ip } else record y { server_ip = ip })
      ≡ net_init_loop (if b then x else y)
either-server_ip true x y ip = net_init_loop-server_ip x ip
either-server_ip false x y ip = net_init_loop-server_ip y ip

-- NetInit sets the server's address, whatever it was.
net_init-server_ip : (n : Net) (ip : ℕ) → net_init (record n { server_ip = ip }) ≡ net_init n
unfolding net_init net_clear_handlers net_set_timeout arp_init
net_init-server_ip n ip =
    either-server_ip n.first_call (record (net_clear_handlers (arp_init n)) { first_call = false })
      n ip

net_loop-server_ip :
    (p : Proto) (rounds : List Round) (n : Net) (ip : ℕ)
    → net_loop p rounds (record n { server_ip = ip }) ≡ net_loop p rounds n
unfolding net_loop
net_loop-server_ip p rounds n ip = rw (net_init-server_ip n ip, net_loop)

eth_initialize-server_ip :
    (b : BoardEthInit) (f : Option (List ℕ)) (n : Net) (ip : ℕ)
    → eth_initialize b f (record n { server_ip = ip })
      ≡ ((eth_initialize b f n).0, record (eth_initialize b f n).1 { server_ip = ip })
unfolding eth_initialize eth_env_init eth_register
eth_initialize-server_ip absent none n ip = refl
eth_initialize-server_ip absent (some f) n ip = refl
eth_initialize-server_ip failing none n ip = refl
eth_initialize-server_ip failing (some f) n ip = refl
eth_initialize-server_ip (registers none) none n ip = refl
eth_initialize-server_ip (registers none) (some f) n ip = refl
eth_initialize-server_ip (registers (some d)) none n ip = refl
eth_initialize-server_ip (registers (some d)) (some f) n ip = refl

-- With a network device, the third argument of `tftpboot`, and with it the second, has no effect: the
-- command does what it does with the file name alone.
pub do_tftpboot-server :
    (h : Host) (filename addr server : List ℕ) (s : Shell)
    → (eth_initialize h.board (some filename) s.net).0 ≢ 0
    → do_tftpboot h (filename ∷ addr ∷ server ∷ []) s ≡ do_tftpboot h (filename ∷ []) s
unfolding do_tftpboot tftpboot_options
do_tftpboot-server h filename addr server s found =
    let n1 = (eth_initialize h.board (some filename) s.net).1 in
    let ip = string_to_ip (some server) in
    rw (eth_initialize-server_ip h.board (some filename) s.net ip) (
      rw (
        ne→== (eth_initialize h.board (some filename) s.net).0 0 found,
        net_loop-server_ip tftpget h.rounds n1 ip,
      ))
