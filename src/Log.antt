-- ===== src/Log.antt =====
-- sylar/base/log.h and log.cpp.
pub mod Level
pub mod Pattern
pub mod Format
pub mod Logger
pub mod Manager
pub mod Conf
pub mod Startup
