-- ===== src/Devops.antt =====
-- static/js/devops-vue.js: the console of development and operations.
pub mod Fetch
pub mod Work
pub mod Tabs
pub mod Comments
pub mod Load
pub mod Forms
pub mod Integrations
pub mod Approvals
pub mod Tests
