-- ===== src/Dispatch.antt =====
-- src/eastwatch/controller/dispatch.py: `HostedDispatcher` turns an event of the forge into a job, an
-- entry that waits for the next run, or a rejection. The children hold the model specs, what an
-- event asks for, the statements of the dispatcher, the dispatch itself and its laws.
pub mod Hints
pub mod Requests
pub mod Handler
pub mod Flow
pub mod Entitled
pub mod Laws
pub mod Once
pub mod Specs
