-- ===== src/GoldenSuite.antt =====
-- internal/goldensuite/contract.go: the validator of a golden suite.
pub mod Contract
pub mod Errors
pub mod Libs
pub mod Sets
pub mod Hex
pub mod Manifest
pub mod Gates
pub mod Cases
pub mod Dir
pub mod Samples
