-- ===== src/Bringup.antt =====
-- Building queue pairs and bringing them up: KRdmaKit/src/queue_pairs/builder.rs, mod.rs and
-- operations_user.rs.
pub mod Builder
pub mod Device
pub mod Build
pub mod Prepared
pub mod Verbs
pub mod Rise
pub mod Carry
pub mod Kernel
pub mod KernelRise
mod Tests
