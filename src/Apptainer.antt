-- ===== src/Apptainer.antt =====
-- natsprovider/apptainer_cmd_builder: the builder of job scripts.
pub mod Logs
pub mod Volumes
pub mod FromKubernetes
pub mod Builder
pub mod Network
pub mod Containers
