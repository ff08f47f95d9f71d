-- ===== src/Aiops.antt =====
-- static/js/aiops-vue.js: the panels of the page of intelligent operations.
pub mod Replies
pub mod Loads
pub mod Reliability
pub mod Tabs
pub mod Investigations
pub mod Analyzer
pub mod Runbook
pub mod Reviews
pub mod Tests
