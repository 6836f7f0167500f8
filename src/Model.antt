-- ===== src/Model.antt =====
-- internal/model/model.go: the records of the deposit protocol and of the catalogue, the validation
-- of texts that come from clients, quota profiles and byte sizes.
pub mod Types
pub mod Text
pub mod Validate
pub mod Header
pub mod Hex
pub mod Bytes
pub mod Profiles
