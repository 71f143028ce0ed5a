-- ===== src/Storage.antt =====
-- src/xgen_sdk/storage: what of the object storage needs no service.
pub mod FolderZip
pub mod Crypto
