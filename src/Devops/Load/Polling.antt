-- ===== src/Devops/Load/Polling.antt =====
-- The polling of the console of static/js/devops-vue.js while work is running.
