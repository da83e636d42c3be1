-- ===== src/Config.antt =====
-- The configuration that the server reads: initInstallConfig, initRuntimeConfig and the decryption
-- of values in witchcraft/witchcraft.go, the options of config/validation.go, and the check of
-- reloads in witchcraft/internal/refreshable/source.go. YAML, the ciphers and the refreshables are
-- parameters.
pub mod Runtime
pub mod Secrets
pub mod Install
pub mod Nodes
pub mod Given
mod Tests
