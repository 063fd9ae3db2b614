-- ===== src/Log.antt =====
-- Logging: include/p/base/log.h, include/p/base/logger.h, include/p/base/logging.h,
-- src/log.cpp and src/logger.cpp.
-- `Sinker` has the thread that writes the log out, `Levels` the settings and the place of a message,
-- `Stream` the text of a message, `Date` the date and time in front of it, and `Handover` the way of a
-- line from a stream to the thread.
pub mod Sinker
pub mod Levels
pub mod Stream
pub mod Date
pub mod Handover
mod Examples
mod Samples
