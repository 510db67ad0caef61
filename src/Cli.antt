-- ===== src/Cli.antt =====
-- The command shell lib/cli.c: the line editor, and the commands that read and write memory.
pub mod Line
pub mod Memory
pub mod Exec
