-- ===== src/Client.antt =====
-- The library that programs call on QNX, qnx/insys: each call builds a request and sends it to the
-- resource manager through its device.
pub mod Device
pub mod Requests
pub mod SemIpc
pub mod MutexIpc
pub mod EventIpc
pub mod ShmIpc
pub mod EndToEnd
pub mod Sessions
mod Examples
mod ShmExamples
