-- ===== src/Log.antt =====
-- gwn/log.h and gwn/log.cc: levels, events, formatters, appenders, loggers and their manager.
pub mod Level
pub mod Event
pub mod Pattern
pub mod Formatter
pub mod Appender
pub mod Logger
pub mod Define
pub mod Yaml
