-- ===== src/Tests.antt =====
-- Runs of the model on concrete inputs, and each theorem at an input that meets its hypotheses.
mod Samples
mod PolicyTests
mod EnforceTests
mod StoreTests
mod RulesTests
mod SyncTests
mod CompileTests
mod AuditTests
mod QueueTests
mod TokensTests
mod BlobTests
mod TrailTests
mod WorkerTests
mod AuthTests
mod ProfileTests
mod ServerTests
mod WorkTests
