-- ===== src/Linux.antt =====
-- The Linux side: the kernel module linux/ipcdrv behind /dev/ipc_driver.
pub mod Ioctl
pub mod Objects
pub mod Kernel
pub mod Entries
pub mod SemPart
pub mod MutexPart
pub mod EventPart
pub mod ShmPart
pub mod Rw
pub mod Module
pub mod Safety
pub mod Session
pub mod Start
pub mod Calls
mod Examples
mod CallExamples
