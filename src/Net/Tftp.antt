-- ===== src/Net/Tftp.antt =====
-- net/tftp.c, as it is configured: no CONFIG_CMD_TFTPPUT, CONFIG_CMD_TFTPSRV, CONFIG_TFTP_TSIZE or
-- CONFIG_SYS_DIRECT_FLASH_TFTP. This file sends; `Receive` handles what comes, `Start` begins.
pub mod Store
pub mod Send
pub mod Receive
pub mod Start
pub mod Offset
pub mod File
pub mod Duplicate
pub mod Download
pub mod Transfer
