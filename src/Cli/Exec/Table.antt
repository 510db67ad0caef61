-- ===== src/Cli/Exec/Table.antt =====
-- The command table of lib/cli.c, without the rows that a driver's configuration adds.
use non_os_lite.Prelude.{List, Option, [], none, some, ℕ, ◌∷◌}

-- Functions that other files define, in assembly or for a board's flash.
pub data Outside : Type 0 where
  do_spi_bootmode_test enable_d_cache disable_d_cache : Outside

-- The functions of the table.
pub data Command : Type 0 where
  md mw irq tftpboot ping_host : Command
  outside : Outside → Command

-- `cmd_t`; a NULL function is `none`.
pub record Entry : Type 0 where
  pub name : List ℕ
  pub usage : List ℕ
  pub func : Option Command

abbrev pub md_text : List ℕ
md_text = b'm' ∷ b'd' ∷ []

abbrev pub md_row : Entry
md_row = record {
  name = md_text;
  usage = b'<' ∷ b'a' ∷ b'd' ∷ b'd' ∷ b'r' ∷ b'>' ∷ b' ' ∷ b'[' ∷ b'n' ∷ b'u' ∷ b'm' ∷ b']' ∷ [];
  func = some md;
}

abbrev pub mw_text : List ℕ
mw_text = b'm' ∷ b'w' ∷ []

abbrev pub mw_row : Entry
mw_row = record {
  name = mw_text;
  usage =
      b'<' ∷ b'a' ∷ b'd' ∷ b'd' ∷ b'r' ∷ b'>' ∷ b' ' ∷ b'<' ∷ b'd' ∷ b'a' ∷ b't' ∷ b'a' ∷ b'>'
      ∷ b' ' ∷ b'[' ∷ b'n' ∷ b'u' ∷ b'm' ∷ b' ' ∷ b'[' ∷ b'i' ∷ b'n' ∷ b'c' ∷ b']' ∷ b']' ∷ [];
  func = some mw;
}

abbrev pub irq_text : List ℕ
irq_text = b'i' ∷ b'r' ∷ b'q' ∷ []

abbrev pub irq_row : Entry
irq_row = record {
  name = irq_text;
  usage =
      b'I' ∷ b'n' ∷ b't' ∷ b'e' ∷ b'r' ∷ b'r' ∷ b'u' ∷ b'p' ∷ b't' ∷ b' ' ∷ b'i' ∷ b'n' ∷ b'f'
      ∷ b'o' ∷ b'r' ∷ b'm' ∷ b'a' ∷ b't' ∷ b'i' ∷ b'o' ∷ b'n' ∷ [];
  func = some irq;
}

abbrev pub spt_text : List ℕ
spt_text = b's' ∷ b'p' ∷ b't' ∷ []

abbrev pub spt_row : Entry
spt_row = record {
  name = spt_text;
  usage =
      b'C' ∷ b'o' ∷ b'd' ∷ b'e' ∷ b' ' ∷ b'o' ∷ b'n' ∷ b' ' ∷ b'S' ∷ b'P' ∷ b'I' ∷ b' ' ∷ b'f'
      ∷ b'l' ∷ b'a' ∷ b's' ∷ b'h' ∷ b' ' ∷ b't' ∷ b'e' ∷ b's' ∷ b't' ∷ [];
  func = some (outside do_spi_bootmode_test);
}

abbrev pub en_cache_text : List ℕ
en_cache_text = b'e' ∷ b'n' ∷ b'_' ∷ b'c' ∷ b'a' ∷ b'c' ∷ b'h' ∷ b'e' ∷ []

abbrev pub en_cache_row : Entry
en_cache_row = record {
  name = en_cache_text;
  usage =
      b'E' ∷ b'n' ∷ b'a' ∷ b'b' ∷ b'l' ∷ b'e' ∷ b' ' ∷ b'D' ∷ b'-' ∷ b'c' ∷ b'a' ∷ b'c' ∷ b'h'
      ∷ b'e' ∷ b' ' ∷ b'a' ∷ b'n' ∷ b'd' ∷ b' ' ∷ b'I' ∷ b'-' ∷ b'c' ∷ b'a' ∷ b'c' ∷ b'h' ∷ b'e'
      ∷ [];
  func = some (outside enable_d_cache);
}

abbrev pub dis_cache_text : List ℕ
dis_cache_text = b'd' ∷ b'i' ∷ b's' ∷ b'_' ∷ b'c' ∷ b'a' ∷ b'c' ∷ b'h' ∷ b'e' ∷ []

abbrev pub dis_cache_row : Entry
dis_cache_row = record {
  name = dis_cache_text;
  usage =
      b'D' ∷ b'i' ∷ b's' ∷ b'a' ∷ b'b' ∷ b'l' ∷ b'e' ∷ b' ' ∷ b'D' ∷ b'-' ∷ b'c' ∷ b'a' ∷ b'c'
      ∷ b'h' ∷ b'e' ∷ b' ' ∷ b'a' ∷ b'n' ∷ b'd' ∷ b' ' ∷ b'I' ∷ b'-' ∷ b'c' ∷ b'a' ∷ b'c' ∷ b'h'
      ∷ b'e' ∷ [];
  func = some (outside disable_d_cache);
}

abbrev pub tftpboot_text : List ℕ
tftpboot_text = b't' ∷ b'f' ∷ b't' ∷ b'p' ∷ b'b' ∷ b'o' ∷ b'o' ∷ b't' ∷ []

abbrev pub tftpboot_row : Entry
tftpboot_row = record {
  name = tftpboot_text;
  usage =
      b'<' ∷ b'f' ∷ b'i' ∷ b'l' ∷ b'e' ∷ b'n' ∷ b'a' ∷ b'm' ∷ b'e' ∷ b'>' ∷ b' ' ∷ b'[' ∷ b'l'
      ∷ b'o' ∷ b'a' ∷ b'd' ∷ b'a' ∷ b'd' ∷ b'd' ∷ b'r' ∷ b']' ∷ b' ' ∷ b'[' ∷ b's' ∷ b'e' ∷ b'r'
      ∷ b'v' ∷ b'e' ∷ b'r' ∷ b'i' ∷ b'p' ∷ b']' ∷ [];
  func = some tftpboot;
}

abbrev pub ping_text : List ℕ
ping_text = b'p' ∷ b'i' ∷ b'n' ∷ b'g' ∷ []

abbrev pub ping_row : Entry
ping_row = record {
  name = ping_text;
  usage = b'<' ∷ b'i' ∷ b'p' ∷ b'a' ∷ b'd' ∷ b'd' ∷ b'r' ∷ b'>' ∷ [];
  func = some ping_host;
}

abbrev pub question_text : List ℕ
question_text = b'?' ∷ []

abbrev pub question_row : Entry
question_row = record {
  name = question_text;
  usage =
      b'p' ∷ b'r' ∷ b'i' ∷ b'n' ∷ b't' ∷ b' ' ∷ b'a' ∷ b'l' ∷ b'l' ∷ b' ' ∷ b'c' ∷ b'm' ∷ b'd'
      ∷ b's' ∷ [];
  func = none;
}

-- The table up to its final `{0}`.
abbrev pub main_cmd_tbl : List Entry
main_cmd_tbl =
    md_row ∷ mw_row ∷ irq_row ∷ spt_row ∷ en_cache_row ∷ dis_cache_row ∷ tftpboot_row ∷ ping_row
    ∷ question_row ∷ []
