-- ===== src/Metric.antt =====
-- The metric pages of static/js/ops-vue-pages.js: what the server sends is read and cleaned, then
-- shown by the component's methods.
pub mod Decimals
pub mod Values
pub mod Texts
pub mod Configs
pub mod Labels
pub mod Cleaning
pub mod Secrets
pub mod Credentials
pub mod Rows
pub mod Fetch
pub mod Panels
pub mod Resources
pub mod Dashboard
pub mod Names
pub mod Integrations
mod Tests
mod RequestTests
