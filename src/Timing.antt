-- ===== src/Timing.antt =====
-- `Utils.debounce` and `Utils.throttle` of static/js/custom.js.
pub mod Debounce
pub mod Throttle
mod Tests
