-- ===== src/NeuroSwap.antt =====
-- The block device of neuro-swap/kmodule, which remembers what is written to it in a neural network.
pub mod Float
pub mod Math
pub mod Network
pub mod Device
pub mod Userspace
pub mod Module
mod Tests
