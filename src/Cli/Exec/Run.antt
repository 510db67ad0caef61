-- ===== src/Cli/Exec/Run.antt =====
-- `cmd_exec` of lib/cli.c, and the commands that it calls.
use non_os_lite.Prelude.{
  List, Option, [], if◌then◌else◌, leb, length, ltb, map, none, some, suc, zero, ℕ, ◌++◌, ◌+◌, ◌==◌,
  ◌^◌, ◌∷◌,
}
use non_os_lite.Irq.{Handler, nr_irqs}
use non_os_lite.Clib.Strtoul.{strtoul}
use non_os_lite.Net.State.{Net, ping, tftpget}
use non_os_lite.Net.Eth.{BoardEthInit, eth_initialize}
use non_os_lite.Net.Text.{string_to_ip}
use non_os_lite.Net.Loop.{Outcome, Round, fault, net_loop, returned, running}
use non_os_lite.Cli.Memory.{Token, do_rd32, do_wr32}
use non_os_lite.Cli.Exec.Table.{Command, Entry, Outside, irq, md, mw, outside, ping_host, tftpboot}

-- What the commands print: a part of a memory dump, a line of the help, a line of the interrupt table,
-- and the messages of `tftpboot` and `ping`.
pub data Printed : Type 0 where
  memory : Token → Printed
  help_line : List ℕ → List ℕ → Printed
  irq_line : ℕ → ℕ → ℕ → Printed
  download_error : Printed
  alive not_alive : List ℕ → Printed

-- The network stack's globals and memory, IRQ_HANDLER, and what has been printed.
pub record Shell : Type 0 where
  pub net : Net
  pub handlers : ℕ → Handler
  pub printed : List Printed

-- A command returns; or the kernel at an address is entered; or the rounds of `NetLoop` ran out; or the
-- code writes or reads where it must not.
pub data Step : Type 0 where
  done : ℕ → Shell → Step
  booted : ℕ → Shell → Step
  waiting : Shell → Step
  crashed : Step

-- What is not under the sources modelled here. `strtok` gives the next token of a string, with the
-- delimiters " \r\n\t", and the string that the next call goes on with.
pub record Host : Type 0 where
  pub strtok : List ℕ → Option (List ℕ × List ℕ)
  pub strcmp : List ℕ → List ℕ → ℕ
  pub board : BoardEthInit
  pub default_isr : ℕ
  pub rounds : List Round
  pub extern : Outside → List (List ℕ) → Shell → Step

abbrev pub print : List Printed → Shell → Shell
print ps s = record s { printed = s.printed ++ ps }

-- The arguments of `tftpboot` behind the file name.
unfoldable pub tftpboot_options : List (List ℕ) → Net → Net
tftpboot_options (addr ∷ []) n = record n { load_addr = (strtoul addr 16).0 }
tftpboot_options (addr ∷ server ∷ []) n = record n { server_ip = string_to_ip (some server) }
tftpboot_options _ n = n

-- What follows NetLoop, whose result is an `int`.
unfoldable pub after_download : Shell → Outcome → Step
after_download s (returned v n) =
    if leb (2 ^ 31) v
    then done 0 (print (download_error ∷ []) (record s { net = n }))
    else booted n.load_addr (record s { net = n })
after_download s (running n) = waiting (record s { net = n })
after_download s fault = crashed

-- The arguments behind the command's name.
unfoldable pub do_tftpboot : Host → List (List ℕ) → Shell → Step
do_tftpboot h [] s = done 1 s
do_tftpboot h (filename ∷ rest) s =
    let (found, n) = eth_initialize h.board (some filename) (tftpboot_options rest s.net) in
    if found == 0
    then done 0 (record s { net = n })
    else after_download s (net_loop tftpget h.rounds n)

unfoldable pub do_ping : Host → List (List ℕ) → Shell → Step
do_ping h [] s = done 0xffffffff s
do_ping h (host ∷ rest) s =
    let (found, n1) = eth_initialize h.board none s.net in
    if found == 0
    then done 0 (record s { net = n1 })
    else let n2 = record n1 { ping_ip = string_to_ip (some host) } in
      if n2.ping_ip == 0 then done 1 (record s { net = n2 }) else elim (net_loop ping h.rounds n2) [
        | returned v n3 ↦
            if leb (2 ^ 31) v
            then done 1 (print (not_alive host ∷ []) (record s { net = n3 }))
            else done 0 (print (alive host ∷ []) (record s { net = n3 }))
        | running n3 ↦ waiting (record s { net = n3 })
        | fault ↦ crashed
      ]

-- The lines of `do_irqinfo` from the interrupt `i` on, with those left.
unfoldable pub irq_lines : ℕ → (ℕ → Handler) → ℕ → ℕ → List Printed
irq_lines default table i zero = []
irq_lines default table i (suc left) =
    let more = irq_lines default table (i + 1) left in
    if (table i).m_func == default
    then more
    else irq_line i (table i).m_func (table i).m_data ∷ more

unfoldable pub do_print_irqinfo : Host → Shell → Step
do_print_irqinfo h s = done 0 (print (irq_lines h.default_isr s.handlers 0 nr_irqs) s)

unfoldable pub run_command : Host → Command → List (List ℕ) → Shell → Step
run_command h md args s =
    let (rc, out) = do_rd32 args s.net.ram in done rc (print (map memory out) s)
run_command h mw args s =
    let ((rc, out), m) = do_wr32 args s.net.ram in
    done rc (print (map memory out) (record s { net = record s.net { ram = m } }))
run_command h irq args s = do_print_irqinfo h s
run_command h tftpboot args s = do_tftpboot h args s
run_command h ping_host args s = do_ping h args s
run_command h (outside f) args s = h.extern f args s

-- `do_help` for all commands, and for the one named.
unfoldable pub help_all : List Entry → List Printed
help_all [] = []
help_all (e ∷ es) = help_line e.name e.usage ∷ help_all es

unfoldable pub help_one : Host → List ℕ → List Entry → List Printed
help_one h name [] = []
help_one h name (e ∷ es) =
    let more = help_one h name es in
    if h.strcmp name e.name == 0 then help_line e.name e.usage ∷ more else more

-- The tokens, with a bound on their number.
unfoldable pub tokens : Host → ℕ → List ℕ → List (List ℕ)
tokens h zero line = []
tokens h (suc k) line = elim (h.strtok line) [ none ↦ [] | some (t, rest) ↦ t ∷ tokens h k rest ]

abbrev pub help_text : List ℕ
help_text = b'h' ∷ b'e' ∷ b'l' ∷ b'p' ∷ []

abbrev pub quit_text : List ℕ
quit_text = b'q' ∷ b'u' ∷ b'i' ∷ b't' ∷ []

-- How `cmd_exec` ends after the command: a result other than 0 prints its usage.
unfoldable pub after_command : Host → List ℕ → List Entry → Step → Step
after_command h name tbl (done rc s) =
    if rc == 0 then done 0 s else done 0 (print (help_one h name tbl) s)
after_command h name tbl step = step

-- The test of a row with the given function and name; `more` is what the loop does if it fails.
unfoldable pub at_row :
    Host → List Entry → Option Command → List ℕ → List ℕ → List (List ℕ) → Shell → Step → Step
at_row h tbl none row name args s more = more
at_row h tbl (some f) row name args s more =
    if h.strcmp row name == 0 then after_command h name tbl (run_command h f args s) else more

-- The loop over the table, at the rows that are left of it.
unfoldable pub exec_loop : Host → List Entry → List Entry → List ℕ → List (List ℕ) → Shell → Step
exec_loop h tbl [] name args s = done 0 (print (help_all tbl) s)
exec_loop h tbl (e ∷ es) name args s =
    let more = exec_loop h tbl es name args s in
    if h.strcmp help_text name == 0
    then done 0 (print (help_all tbl) s)
    else at_row h tbl e.func e.name name args s more

-- sizeof(argv) / sizeof(argv[0])
abbrev pub argv_len : ℕ
argv_len = 16

-- What follows the splitting of the line. With more tokens than `argv` has entries the code has written
-- behind it.
unfoldable pub exec_argv : Host → List Entry → Shell → List (List ℕ) → Step
exec_argv h tbl s [] = done 0 s
exec_argv h tbl s (name ∷ args) =
    if ltb argv_len (length (name ∷ args))
    then crashed
    else if h.strcmp quit_text name == 0
    then done 1 s
    else exec_loop h tbl tbl name args s

unfoldable pub cmd_exec : Host → List ℕ → List Entry → Shell → Step
cmd_exec h line tbl s = exec_argv h tbl s (tokens h (suc (length line)) line)
