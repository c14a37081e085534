-- ===== src/Process.antt =====
-- The process of the controller: pkg/controller/*/controller.go (`New…Controller` and `Run`),
-- pkg/manager, pkg/leaderelection, pkg/signals and cmd. Goroutines and channels are steps of one
-- state, taken in any order.
pub mod Command
pub mod Controllers
pub mod Run
pub mod System
pub mod Phase
pub mod Safety
pub mod Shutdown
pub mod StandBy
pub mod Missed
