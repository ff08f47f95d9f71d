-- ===== src/Form.antt =====
-- The two form validators of static/js/custom.js.
pub mod Rules
pub mod Field
pub mod Validator
pub mod App
mod Tests
