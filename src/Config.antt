-- ===== src/Config.antt =====
-- gwn/config.h and gwn/config.cc: configuration variables, their registry, and loading from YAML.
pub mod Var
pub mod Registry
pub mod Cast
pub mod Yaml
