-- ===== src/Binding.antt =====
-- pkg/controller/endpointgroupbinding: the queue's handler, and the phases of a binding.
pub mod Endpoints
pub mod Update
pub mod Delete
pub mod Sync
pub mod Faults
pub mod Converge
pub mod Ledger
pub mod Refines
pub mod Removes
pub mod Leaves
