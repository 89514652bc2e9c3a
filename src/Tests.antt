-- ===== src/Tests.antt =====
-- The theorems at concrete inputs.
mod Trees
mod Family
mod Ticks
mod Areas
mod Faults
mod Kernels
mod Blocking
mod Devices
