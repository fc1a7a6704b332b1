-- ===== src/Utils.antt =====
-- natsprovider/utils.py, one child module per part of the file.
pub mod Responses
pub mod JobId
pub mod Resources
pub mod PodResources
pub mod Embed
pub mod TokenManager
