-- ===== src/Tests.antt =====
-- Concrete inputs: a cloud service that grants all, and the theorems at examples.
pub mod Granting
mod Informers
mod Copies
mod Texts
mod Runs
mod Bindings
mod Owners
mod Records
mod Processes
