-- ===== src/Cli/Exec.antt =====
-- Command lines: `cmd_exec` of lib/cli.c and the commands that it calls.
pub mod Table
pub mod Run
pub mod Words
pub mod Dispatch
pub mod Boot
pub mod Kernel
pub mod Prompt
pub mod Typing
pub mod Session
