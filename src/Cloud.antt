-- ===== src/Cloud.antt =====
-- What the program asks of AWS and of Kubernetes, none of which is part of the repository: the
-- requests with the fields that the code fills in, and the answers. A service is a parameter of
-- the model, which may answer anything, at its own state. Every request is logged with its answer.
pub mod Types
pub mod Exec
pub mod Triple
pub mod Keeps
pub mod Rules
pub mod Bounds
pub mod Sends
