-- ===== src/Tests.antt =====
-- Runs of the server on concrete files, and the theorems at inputs that meet their hypotheses.
mod Evidence
mod Samples
mod Tables
mod Catalog
mod Clients
mod Ordering
mod Returns
mod Validate
mod Views
mod Server
mod Sessions
mod NewOrder
mod Concurrent
mod Demos
mod DemoThreads
mod Relay
mod ClientProgram
