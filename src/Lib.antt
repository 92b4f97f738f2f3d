-- ===== src/Lib.antt =====
-- The controller of eastwatch: the hosted side of the system, which turns events of the forge into
-- jobs, leases the jobs to runners, and reports on them to the forge. Paths are from the
-- repository's root; a definition keeps the name of the function that it models.
--
-- The parts and how they interact. The store (src/eastwatch/controller/store.py) is a SQLite
-- database with one method for each thing that the others do to it. The dispatcher (dispatch.py)
-- writes events and jobs into it; runners claim, start, renew and finish jobs through it; the reaper
-- gives up the leases that ran out; the retention manager (retention.py, tokens.py) schedules the
-- cleanup of merged runs, which runners lease as workspace actions; the outbox (outbox.py) delivers
-- to the forge the notices that these methods leave. The poller (src/eastwatch/watcher.py,
-- `hosted_cycle`) lists the labels and comments of the forge and hands them to the dispatcher.
-- Runners reach the store through the HTTP routes (api.py), which their client
-- (src/eastwatch/runner/client.py) calls with retries.
--
-- The files. Prelude holds the tests and texts, and results with exceptions as values (models.py);
-- Table, what SQL statements do to a list of rows; Models, the dataclasses of models.py; Schema, the
-- tables, as the record Db with a list for each; Transaction, the `transaction` of the store: a body
-- gives a value and the new database, or raises, and then the old database stays. Store.Workspaces,
-- Events, Outbox, Claim, Leases, Complete, Reap, Actions and Finish hold the methods of
-- ControllerStore. BEGIN IMMEDIATE makes transactions run one after another, so that a history of
-- the controller is a list of calls: History has a `Call` for each method that writes, its `step`,
-- and `run`. Jobs says what may become of a job, Capacity what a workspace may hold, Delivery what
-- may become of an outbox item, method by method and then for a whole history. Lifecycle is about
-- single methods. Dispatch, Retention and Notices model the dispatcher, the retention manager and
-- the outbox delivery, each with a module of laws. Poll models the poller: its texts and markers,
-- its listings, what it decides on a comment, and the cycle. Api models the routes, with their
-- bounds, bearer tokens and status codes; Runner, the client, as a sender of requests that may be
-- lost or lose their response, `upload_terminal` (src/eastwatch/runner/executor.py), and the table
-- of active jobs of the daemon (daemon.py), with the steps of its threads as a relation. Tests
-- applies the theorems to a small database.
--
-- Bounds and fuel. Python's integers and SQLite's are natural numbers here, times are whole seconds,
-- and a negative limit reads as 0, as `max` makes it. All loops run over lists, so none needs fuel;
-- the pages of discussions are 20 at most; `decimal` has as much fuel as the number it prints, which
-- is more than its digits; the loops that run until they are answered (`long_poll`,
-- `upload_terminal`) have the turns that they may take as an argument.
--
-- Parameters. The order of texts in the database, the digest of a token, Python's `repr` and `str`
-- of an exception, `datetime.fromisoformat`, and the forge: the requests of RetentionManager and the
-- records `Forge`, which also holds the parsers that the outbox takes from src/eastwatch/watcher.py
-- and what others do to the database while `deliver_job` talks to the forge, and `GitLab`, which may
-- answer differently for each comment that is handled; the notes of the forge as `ensure_note` lists
-- and posts them are a record of their own, `NotesApi`.
--
-- What is not modelled: the configuration and threads of the controller, FastAPI's parsing of JSON,
-- the schema's migration, the texts of notes, and the parts outside the controller: the local
-- watcher, the rest of the runner (its processes and files), fleet, jira and the command line tools.
pub mod Prelude
pub mod Table
pub mod Models
pub mod Schema
pub mod Transaction
pub mod Store
pub mod Jobs
pub mod History
pub mod Capacity
pub mod Lifecycle
pub mod Delivery
pub mod Dispatch
pub mod Retention
pub mod Notices
pub mod Poll
pub mod Api
pub mod Runner
pub mod Tests
