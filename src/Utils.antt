-- ===== src/Utils.antt =====
-- include/azul/utils: small helpers of all components.
pub mod Disposer
