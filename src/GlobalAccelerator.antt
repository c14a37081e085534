-- ===== src/GlobalAccelerator.antt =====
-- pkg/cloudprovider/aws/global_accelerator.go: listing, creating, updating, cleaning up and
-- ensuring accelerators.
pub mod Lookup
pub mod Update
pub mod Cleanup
pub mod Ensure
pub mod Creation
pub mod Steady
pub mod Listing
pub mod Bounds
