-- ===== src/Lib.antt =====
-- The JavaScript parts of the polyglot-infinity platform: the central APM server
-- (apm-server/server.js), the gateway's load test (tests/load-test.js) and the dashboard's
-- components (portal-svelte/src). Services send batches of timing events to the APM server; it
-- keeps the most recent ones in memory and reports percentiles for each service. The dashboard
-- polls the gateway and follows its order feed; the load test draws one request scenario after
-- another.
--
-- Js models what the programs use of the language: numbers as an interface with the order that
-- JSON numbers have (Js/Number; a number is a float, and there are none here), stable sorting
-- (Js/Sort), dictionary objects with the order of Object.keys (Js/Object), parsed JSON values
-- (Js/Value) and exceptions (Js/Completion). Prelude holds the shared notation and list lemmas.
--
-- Apm models apm-server/server.js, whole but for the listen call and the log lines: Apm/Buffer is
-- ingest, Apm/Stats is percentile and computeStats, Apm/Metrics is buildMetrics, Apm/Query reads
-- the limit from a URL, Apm/Router is handleRequest with the catch of createServer, and
-- Apm/Connections is the event loop with readBody. JSON.parse and the UTF-8 decoder are
-- parameters, and so is the number type; a reply's body is the value that is given to
-- JSON.stringify. Reading a property throws on null alone, as it does for the two names that are
-- read.
--
-- Load models tests/load-test.js: Load/User is a virtual user with what k6 offers to it,
-- Load/Scenario (and the modules below it) the scenario functions, and Load/Table the SCENARIOS
-- table and the main loop. The environment, a parameter, draws the numbers, reads the clock and
-- answers the requests. The amounts of the payloads are kept in hundredths. json() of a body that
-- is no JSON throws, which ends the iteration, and with the name of a field is undefined. The
-- stages and thresholds that k6 reads are left out.
--
-- Portal models portal-svelte/src/routes/+page.svelte: Portal/Feed is the order feed, a step for
-- each event of the browser; Portal/Services is SERVICES; Portal/Statuses is what each of the
-- five fetches writes to the cards, and Portal/Cycle the page around them, where the fetches of
-- one cycle, or of several that overlap, settle in any order. The bodies of the responses have
-- the types that the source declares for them.
--
-- Panels models the scripts under portal-svelte/src/lib/components/panels. Js/Async is what an
-- async function may do: assign, read, send requests and wait for their ends, throw.
-- Panels/Machine is a panel in the browser's event loop: buttons, bound inputs, and answers of
-- the network, which come to the waiting functions in any order. Panels/Shape has the shapes that
-- the handlers share, Panels/Setting what comes from outside (API_BASE, number formats), and each
-- panel has a file of its own with the functions of its script, its disabled attributes and its
-- loading flags; Panels/Dashboard brings them together. A number in a template is shown by a
-- parameter, a number input is taken to hold a number, and an undefined value reads as a property
-- that is not there. Panels/Elixir is the panel with a WebSocket, a step for each event of the
-- browser; Panels/SystemStatus is the one with an interval and an event source, likewise;
-- Panels/DependencyMap has the tables of the map. The Ruby panel stands outside of
-- Panels/Dashboard, since one of its functions starts another past its button. Not modelled are
-- markup and styles, the charts, the WASM panel and the QR code, which draw in floating point or
-- call compiled code.
--
-- The loop of the transfer scenario, which draws accounts until two differ, is followed for a
-- number of rounds, a parameter, and one that is longer has no result; Load/Redraws says how many
-- rounds are enough. No other loop needs fuel: each runs over a list. Percentile ranks are
-- computed in whole numbers and for the three percentages alone that the source asks for, where
-- they agree with its float expression. Sums and means are those of the number interface; what is
-- said of the mean assumes of it only what floats give, that whole numbers below 2 ^ 52 are added
-- and averaged exactly. Whole numbers of any size, an instance of the interface, serve the
-- examples. The limit in a URL is read as a whole number of any size, of which the clamp to 1000
-- shows no rounding. Array.prototype.sort is modelled by stable insertion, the one result that
-- the language allows for a consistent comparator.
pub mod Prelude
pub mod Js
pub mod Apm
pub mod Load
pub mod Portal
pub mod Panels
