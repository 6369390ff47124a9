-- ===== src/Etl.antt =====
-- The job framework of databuilder: closers, callbacks, transformers, tasks and jobs.
pub mod Closer
pub mod Callback
pub mod Transformer
pub mod Chain
pub mod Task
pub mod Job
