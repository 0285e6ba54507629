-- ===== src/Syscall.antt =====
-- KRdmaKit-syscall/src: the virtual queue behind /dev/krdma.
pub mod Abi
pub mod Kernel
pub mod Queue
pub mod Request
pub mod Send
pub mod Recv
pub mod Server
pub mod Connect
pub mod Ioctl
pub mod Batching
pub mod Unchanged
pub mod Invariant
pub mod Reach
pub mod Polling
pub mod Binding
pub mod Counting
pub mod Reposting
pub mod Caching
mod Tests
