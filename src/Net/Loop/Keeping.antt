-- ===== src/Net/Loop/Keeping.antt =====
-- A property of the state that `NetLoop` keeps, from its steps.
use mathlib.Core.Path.{subst}
use mathlib.Core.Option.{some-injective}
use non_os_lite.Prelude.{
  Bool, Buf, List, Option, [], false, if◌then◌else◌, none, refl, some, sym, true, ℕ, ◌==◌, ◌∷◌, ◌≡◌,
}
use non_os_lite.Net.State.{
  Device, Frame, LoopState, Net, Proto, netloop_continue, netloop_fail, netloop_restart,
  netloop_success,
}
use non_os_lite.Net.Arp.{arp_init, arp_timeout_check}
use non_os_lite.Net.Send.{net_clear_handlers}
use non_os_lite.Net.Receive.{net_receive}
use non_os_lite.Net.Text.{string_to_ip}
use non_os_lite.Net.Untouched.{Untouched, arp_timeout_check-Untouched, timeout_check-Untouched}
use non_os_lite.Net.Loop.{
  Outcome, Round, after_round, eth_rx, fault, gateway_ip_text, minus_one, net_check_prereq,
  net_init, net_init_loop, net_loop, net_restart, net_round, net_rounds, our_ip_text,
  protocol_start, returned, running, server_ip_text, subnet_mask_text, timeout_check,
}

-- The property holds of the state in which the loop returns or goes on.
abbrev pub Ends : (Net → Type 0) → Outcome → Type 0
Ends P (returned k n) = P n
Ends P (running n) = P n
Ends P fault = Unit {0}

module _ (protocol : Proto) (P : Net → Type 0)
    (receive : (et : Buf) (len : ℕ) (n : Net) → P n → P (net_receive et len n))
    (kept : (n m : Net) → Untouched n m → P n → P m)
    (clear : (n : Net) → P n → P (net_clear_handlers n))
    (start : (n : Net) → P n → P (protocol_start protocol n)) where
  eth_rx-keeps : (fs : List Frame) (n : Net) → P n → P (eth_rx fs n)
  unfolding eth_rx
  eth_rx-keeps [] n h = h
  eth_rx-keeps (f ∷ fs) n h = eth_rx-keeps fs _ (one n.eth_current)
    where
      one :
          (o : Option Device)
          → P (elim o as (λ x. Net) [ none ↦ n | some d ↦ net_receive f.bytes f.size n ])
      one none = h
      one (some d) = receive f.bytes f.size n h

  at_end :
      (s : LoopState) (n : Net)
      → P n
      → Ends P (elim s as (λ x. Outcome) [
        | netloop_success ↦ let n3 = net_clear_handlers n in returned n3.boot_file_xfer_size n3
        | netloop_fail ↦ returned minus_one (net_clear_handlers n)
        | netloop_restart ↦ running n
        | netloop_continue ↦ running n
      ])
  at_end netloop_success n h = clear n h
  at_end netloop_fail n h = clear n h
  at_end netloop_restart n h = h
  at_end netloop_continue n h = h

  if-Ends : (b : Bool) (x y : Outcome) → Ends P x → Ends P y → Ends P (if b then x else y)
  if-Ends true x y p q = p
  if-Ends false x y p q = q

  net_round-keeps : (r : Round) (n : Net) → P n → Ends P (net_round r n)
  unfolding net_round
  net_round-keeps r n h =
      let n1 = eth_rx r.frames n in
      let h1 = eth_rx-keeps r.frames n h in
      let n2 = timeout_check (arp_timeout_check n1) in
      let h2 =
        kept (arp_timeout_check n1) n2 (timeout_check-Untouched (arp_timeout_check n1))
          (kept n1 (arp_timeout_check n1) (arp_timeout_check-Untouched n1) h1) in
      let quit : Net = record n1 { arp = record n1.arp { wait_packet_ip = 0 } } in
      if-Ends (r.key == b'q') _ _
        (clear quit (
          kept n1 quit (record { same_ram = refl; same_load_addr = refl; same_udp_handler = refl })
            h1))
        (at_end n2.net_state n2 h2)

  -- What stands behind a result of NetInitLoop.
  net_init_loop-keeps : (n m : Net) → net_init_loop n ≡ some m → P n → P m
  unfolding net_init_loop
  net_init_loop-keeps n m e h = kept n m (same n.eth_current e) h
    where
      addressed : Device → Net
      addressed d = record n {
        our_ip = string_to_ip (some our_ip_text);
        our_gateway_ip = string_to_ip (some gateway_ip_text);
        our_subnet_mask = string_to_ip (some subnet_mask_text);
        server_ip = string_to_ip (some server_ip_text);
        our_ether = d.enetaddr;
      }

      same :
          (o : Option Device)
          → elim o as (λ x. Option Net) [ none ↦ none | some d ↦ some (addressed d) ] ≡ some m
          → Untouched n m
      same none e = cc
      same (some d) e =
          subst (Untouched n) (some-injective _ _ e)
            (record { same_ram = refl; same_load_addr = refl; same_udp_handler = refl })

  restarted : Option Net → Outcome
  restarted none = fault
  restarted (some n1) =
      if net_check_prereq protocol n1 == 0
      then running (protocol_start protocol (record n1 { boot_file_xfer_size = 0 }))
      else returned minus_one n1

  restarted-keeps : (o : Option Net) → ((m : Net) → o ≡ some m → P m) → Ends P (restarted o)
  unfolding restarted
  restarted-keeps none h = tt
  restarted-keeps (some m) h =
      let fresh : Net = record m { boot_file_xfer_size = 0 } in
      if-Ends (net_check_prereq protocol m == 0) _ _
        (start fresh (
          kept m fresh (record { same_ram = refl; same_load_addr = refl; same_udp_handler = refl })
            (h m refl)))
        (h m refl)

  net_restart-restarted :
      (n : Net)
      → net_restart protocol n
        ≡ restarted (net_init_loop (record n { net_state = netloop_continue }))
  unfolding net_restart restarted
  net_restart-restarted n = at_option (net_init_loop (record n { net_state = netloop_continue }))
    where
      at_option :
          (o : Option Net)
          → elim o as (λ x. Outcome) [
            | none ↦ fault
            | some n1 ↦
                if net_check_prereq protocol n1 == 0
                then running (protocol_start protocol (record n1 { boot_file_xfer_size = 0 }))
                else returned minus_one n1
          ]
            ≡ restarted o
      at_option none = refl
      at_option (some m) = refl

  net_restart-keeps : (n : Net) → P n → Ends P (net_restart protocol n)
  net_restart-keeps n h =
      let n1 : Net = record n { net_state = netloop_continue } in
      subst (Ends P) (sym (net_restart-restarted n)) (
        restarted-keeps (net_init_loop n1) (λ m e. net_init_loop-keeps n1 m e (
          kept n n1 (record { same_ram = refl; same_load_addr = refl; same_udp_handler = refl })
            h)))

  after_round-keeps : (o : Outcome) → Ends P o → Ends P (after_round protocol o)
  unfolding after_round
  after_round-keeps (returned k n) h = h
  after_round-keeps fault h = h
  after_round-keeps (running n) h = at_state n.net_state
    where
      at_state :
          (s : LoopState)
          → Ends P (elim s as (λ x. Outcome) [
            | netloop_restart ↦ net_restart protocol n
            | _ ↦ running n
          ])
      at_state netloop_success = h
      at_state netloop_fail = h
      at_state netloop_restart = net_restart-keeps n h
      at_state netloop_continue = h

  net_rounds-keeps : (rs : List Round) (o : Outcome) → Ends P o → Ends P (net_rounds protocol rs o)
  unfolding net_rounds
  net_rounds-keeps [] o h = h
  net_rounds-keeps (r ∷ rs) (returned k n) h = h
  net_rounds-keeps (r ∷ rs) fault h = h
  net_rounds-keeps (r ∷ rs) (running n) h =
      net_rounds-keeps rs _ (after_round-keeps (net_round r n) (net_round-keeps r n h))

  initialised : Net → Net
  initialised n =
      if n.first_call then record (net_clear_handlers (arp_init n)) { first_call = false } else n

  initialised-keeps : (n : Net) → P n → P (initialised n)
  unfolding initialised arp_init
  initialised-keeps n h =
      let first = net_clear_handlers (arp_init n) in
      either n.first_call (record first { first_call = false }) n
        (kept first (record first { first_call = false })
          (record { same_ram = refl; same_load_addr = refl; same_udp_handler = refl })
          (clear (arp_init n) (
            kept n (arp_init n)
              (record { same_ram = refl; same_load_addr = refl; same_udp_handler = refl }) h)))
        h
    where
      either : (b : Bool) (x y : Net) → P x → P y → P (if b then x else y)
      either true x y p q = p
      either false x y p q = q

  begun : List Round → Option Net → Outcome
  begun rs none = fault
  begun rs (some n1) = net_rounds protocol rs (net_restart protocol n1)

  begun-keeps :
      (rs : List Round) (o : Option Net) → ((m : Net) → o ≡ some m → P m) → Ends P (begun rs o)
  unfolding begun
  begun-keeps rs none h = tt
  begun-keeps rs (some m) h =
      net_rounds-keeps rs (net_restart protocol m) (net_restart-keeps m (h m refl))

  net_loop-begun :
      (rs : List Round) (n : Net)
      → net_loop protocol rs n ≡ begun rs (net_init_loop (initialised n))
  unfolding net_loop net_init begun initialised
  net_loop-begun rs n = at_option (net_init_loop (initialised n))
    where
      at_option :
          (o : Option Net)
          → elim o as (λ x. Outcome) [
            | none ↦ fault
            | some n1 ↦ net_rounds protocol rs (net_restart protocol n1)
          ]
            ≡ begun rs o
      at_option none = refl
      at_option (some m) = refl

  -- If the steps keep the property, so does the loop, over any rounds.
  pub net_loop-keeps : (rs : List Round) (n : Net) → P n → Ends P (net_loop protocol rs n)
  net_loop-keeps rs n h = subst (Ends P) (sym (net_loop-begun rs n)) (
      begun-keeps rs (net_init_loop (initialised n))
        (λ m e. net_init_loop-keeps (initialised n) m e (initialised-keeps n h)))
