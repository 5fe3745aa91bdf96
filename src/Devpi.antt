-- ===== src/Devpi.antt =====
-- devpi, which serves PyPI: policy-sync/policy_sync/devpi.py, which puts the constraints into it,
-- devpi/ensure_index.py, which makes its indexes, and the plugin that enforces the constraints,
-- devpi/artea_devpi_policy/src/artea_devpi_policy/main.py. devpi itself is a parameter.
pub mod Lines
pub mod Plugin
pub mod Client
pub mod Bootstrap
