-- ===== src/Tests.antt =====
-- The theorems at concrete inputs.
mod Memory
mod Bytes
mod Registers
mod Actions
mod Loader
mod Engine
mod Extended
mod Files
mod Svasm
mod Runner
mod Network
mod Termination
