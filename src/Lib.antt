-- ===== src/Lib.antt =====
-- Verification of the analyzer of a distributed tracing platform (analyzer/src/analyzer, Python).
--
-- The analyzer polls the table of spans in windows aligned to the epoch. For each window that is due it
-- reads the window's spans, rebuilds each trace and classifies its spans, rolls the calls up by service
-- and by edge, compares the roll-ups with baselines of the recent past, and reports anomalies.
--
-- Parts and files (Python files are in analyzer/src/analyzer):
--   * Windowing: windowing.py and the poll loop of main.py (`run`). `WindowTracker` is the tracker's
--     state; each method is a function that takes and returns it. `run_polls` is the loop at a list of
--     readings of the clock. The loop `while True` of `due_windows` has `now + 1` units of fuel: a window
--     is at least one nanosecond long, and the theorems on `due_windows` are about the whole function.
--   * Reassembly: reassembly.py. `links` is the first loop of `_reassemble_trace`; `bfs_mark` and
--     `subtree_depth` are its two searches, with fuel for each child entry and the seed; `classify` and
--     the three lists of `trace_classifications`, and `trace_summary`, are its results; `reassemble` and
--     `resolved_parent_child_pairs` go over the traces. Reassembly/Marking and Reassembly/Depth are
--     about the ends of the searches: a step that goes on has marked another span.
--   * Statutil: statutil.py, exactly: percentiles in hundredths, medians in halves.
--   * Aggregation: service_agg.py and topology_agg.py.
--   * Targets, Detectors: targets.py and detectors.py. Floating-point numbers are an interface,
--     `Prelude.Floats`, with the laws of IEEE 754 that the theorems use; a division or a root that Python
--     refuses is `none`. Prelude/Fixed is a concrete instance, in thousandths.
--   * Suppression: suppression.py. `runs` is the loop of `group_detections` over a sorted group;
--     `resolve_root` recurses on fuel, one more than the incidents of `by_target`, and
--     Suppression/Endings is about that fuel; `suppress_propagated` fills `resolved` by the same two loops.
--   * Baselines: baseline.py. Medians are exact on integers and then become floating-point numbers.
--   * Clockskew: clockskew.py. The search from the root service has fuel for each edge; Clockskew/Rounds is
--     about that fuel: a round that goes on has reached the callee of another edge.
--   * Pipeline: main.py, `process_window`, `run_detection` and `run_suppression`: the parts above, called
--     in turn on what the reader returns.
--   * Evaluation: eval.py, `compute_metrics`, in Evaluation/Incidents `compute_incident_metrics`, and in
--     Evaluation/Depths `compute_depths`, whose search has fuel for each edge and two. Evaluation/Queries and
--     Evaluation/Magnitudes are the queries, over the tables of Storage and those of the ground truth, and
--     Evaluation/Run is `evaluate`.
--   * Storage: chclient.py and the tables of deploy/clickhouse/init.sql. `Client` is the ClickHouse client:
--     a state, an insert and the tables as FINAL reads them. Storage/Laws says what a lawful client does: a
--     table of rows keeps the last row of each key of its ORDER BY, and one insert leaves the other tables
--     as they are. Storage/Memory is a client in memory with these laws.
--   * Writer, Reader: writer.py and reader.py, over any client. A query is its WHERE clause as a filter.
--   * Pipeline/Stored: main.py again, with each read and write in its place: `process_stored` is
--     `process_window`, `check_late_spans` its namesake, and `run` the poll loop at a list of readings of
--     the clocks. An exception is none. It uses the Windowing tracker, the Reader, the Writer and the parts
--     above.
--   * Api: api/queries.py, api/schemas.py and api/routes.py. Api/Traces, Api/Details and Api/Listings are
--     the queries, Api/Schemas the bodies of the answers, and Api/Routes the handlers, with what they raise.
--   * Configuration: config.py. `int` is a definition, on texts of ASCII with its default limit of digits,
--     and `float` is an argument. The other parts take the fields that they read in records of their own
--     (Pipeline.Config, Api.Routes.ApiConfig), with times in nanoseconds where the source has seconds as
--     floats, and no negative numbers.
--   * Prelude: lists, dictionaries as association lists in the order of insertion, `groups[k].append(v)`,
--     stable sorting, signed integers, and the interface of floating-point numbers.
--
-- Times are natural numbers of nanoseconds; the source uses seconds as floats for windows. A dictionary
-- keeps the order of insertion, as in Python; a set is a list that is only searched.
--
-- Not modelled: the text of the SQL queries and their execution (the database), metrics, logging, the
-- framework of the HTTP servers (api/app.py and httpserver.py), which parses the parameters, and the
-- printing of eval.py. The collector, the writer and the load generator (Go), the dashboard
-- (TypeScript) and the deployment are other programs.
pub mod Prelude
pub mod Windowing
pub mod Reassembly
pub mod Statutil
pub mod Aggregation
pub mod Targets
pub mod Detectors
pub mod Suppression
pub mod Baselines
pub mod Clockskew
pub mod Pipeline
pub mod Evaluation
pub mod Storage
pub mod Writer
pub mod Reader
pub mod Api
pub mod Configuration
