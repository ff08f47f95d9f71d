-- ===== src/Lib.antt =====
-- The scripts of the pages of this system management platform: what the browser runs for forms,
-- notifications, tables, connection tests, server states, the metric pages and the two consoles.
--
-- The Django applications render a page and give it a value of JSON; the scripts read that value,
-- react to the user, ask the server by `fetch`, and show what comes back. They share the document
-- and little else, so each component is modelled on its own state, and the document is modelled
-- where a component reads it back: the children of a container, the classes of an element, the
-- rows of a table.
--
-- Parts and files:
--   Base: numbers, lists, texts as lists of UTF-16 code units, maps, regular expressions, and the
--     methods of JavaScript that the code uses (`trim`, `split`, `includes`, `parseInt`, `test`).
--   Form: the class `FormValidator` (Form/Validator), the form checks of `App` (Form/App) and the
--     rules on addresses, ports, passwords and e-mail (Form/Rules), all of static/js/custom.js.
--   Notification: `ModernNotificationSystem` of static/js/custom.js, with the queue, the map, the
--     container, the counter and the pending timers.
--   Modal: `ModernModal` of static/js/custom.js, with the promise of a confirmation.
--   Table: `ModernDataTable` of static/js/custom.js. Loading: `LoadingManager` of it. Timing:
--     `Utils.debounce` and `Utils.throttle` of it.
--   Connection: `ConnectionTester` of static/js/connection-test.js: validation, the requests in
--     flight, and batches. Status: `ServerStatusManager` of the same file, which calls a tester for
--     each server; Status/Dashboard: static/js/neo-dashboard.js.
--   Metric: static/js/ops-vue-pages.js. Values has the values of JSON and the conversions, Texts,
--     Labels, Cleaning, Configs and Rows the normalization of what the server sends, Fetch the
--     function `fetchMetricJson`, Resources the loading of Targets, Rules and Alerts, Panels the
--     queries and their suggestions, Names the search for names of metrics with its cache,
--     Integrations the lists of integrations, and Dashboard the loading of the dashboard, the choice
--     of nodes and, in Dashboard/Filters, the filters and the order of its rows.
--   Aiops: static/js/aiops-vue.js. Loads has the panels that a button loads, Reliability the one
--     that counts its requests, with the machine it implements in Reliability/Latest, Analyzer the
--     analysis of Kubernetes, Runbook the runbooks, Reviews the
--     reviews, Tabs the tabs, and Investigations the list,
--     details and feedback.
--   Devops: static/js/devops-vue.js. Fetch is `apiFetch`, Work the computed lists, Tabs the tabs,
--     Load `loadAll` and the timer, Forms the two forms, Comments and Approvals the
--     approvals, Integrations the connectors and blueprints.
--     Tablist has the keys of tabs, which both pages and the metric page handle.
--
-- State and concurrency: a component is a record and each method a function on it. Where a method
-- awaits a request or sets a timer it is cut in two, and the end of the request or the firing of
-- the timer is an event of its own; `run` takes the events in any order. A request in flight and a
-- pending timer are part of the state. The identifiers that `Utils.generateId` draws, what the
-- clock shows and what the server answers are inputs.
--
-- Parameters: `convert` is the number that `Number` makes of a string, an array or an object;
-- `lower_other` and `lower` are `toLowerCase` beyond ASCII and on texts; `fraction_exceeds` compares a
-- number with a fraction to an integer; `number_before` and
-- `date_before` are how `parseFloat` and `Date` order two cells, `name_before` and
-- `less` how `localeCompare` and numbers do, of which only asymmetry is
-- assumed; `settle` is `Promise.all` over a batch, which gives a result for each promise; `show` is
-- the text that `Error` makes of a value, `fields` what `Date` makes of the clock, and the requests
-- that `loadAll` awaits together come as what `Promise.all` makes of them.
--
-- Fuel: the loop over batches gets as many rounds as there are servers, which is enough because
-- each round advances by at least one; the digits of a number get one round more than the number.
--
-- Not modelled: the look of the page, animations, the templates of the Vue applications beyond the
-- handlers and the conditions of buttons, the scripts of third parties, and the server.
pub mod Base
pub mod Form
pub mod Notification
pub mod Connection
pub mod Status
pub mod Table
pub mod Loading
pub mod Timing
pub mod Modal
pub mod Metric
pub mod Tablist
pub mod Aiops
pub mod Devops
