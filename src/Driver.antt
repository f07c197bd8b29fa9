-- ===== src/Driver.antt =====
-- The QNX IPC resource manager, qnx/ipcdrv.
pub mod Ioctl
pub mod Objects
pub mod Machine
pub mod Struct
pub mod Table
pub mod Timeout
pub mod SemPart
pub mod MutexPart
pub mod EventPart
pub mod ShmPart
pub mod Instance
pub mod Devctl
pub mod Session
pub mod Registry
pub mod Sample
mod Examples
mod ClosingExamples
pub mod SessionExamples
