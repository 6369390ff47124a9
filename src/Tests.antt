-- ===== src/Tests.antt =====
-- Runs of the models on concrete inputs.
mod Tables
mod Loading
mod Jobs
mod Searching
mod Naming
mod Extracting
mod Finding
mod Storing
mod Editing
mod Records
mod Indexing
mod Removal
mod Publishing
