-- ===== src/Config.antt =====
-- sylar/base/config.h and config.cpp.
pub mod Yaml
pub mod Cast
pub mod Nodes
pub mod Vars
pub mod Notation
mod Tests
