-- ===== src/Tests.antt =====
-- A small database on which the theorems are applied: a project, a workspace of capacity 2, and a
-- conversation for each of three jobs, of which one is queued, one leased and one running.
mod Fixture
mod Examples
mod Polling
mod Requests
mod Effects
mod Texts
mod Posting
