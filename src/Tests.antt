-- ===== src/Tests.antt =====
-- The theorems at concrete inputs, and runs of the code.
mod Clib
mod Printf
mod Devices
mod Exec
mod Loop
mod Opening
mod Net
mod Shell
mod Timers
mod Tftp
