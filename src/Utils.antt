-- ===== src/Utils.antt =====
-- internal/utils
pub mod Strings
pub mod Conditions
pub mod Annotations
pub mod Jobs
pub mod PodTemplate
pub mod Provisioner
