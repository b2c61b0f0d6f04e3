-- ===== src/Tests.antt =====
-- The theorems at concrete inputs, over concrete stand-ins for the third-party crates.
mod Instances
mod Formats
mod Core
mod Fabric
mod Signed
mod Wires
mod Texts
mod Records
mod Chains
