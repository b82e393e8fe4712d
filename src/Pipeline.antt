-- ===== src/Pipeline.antt =====
-- backend/src/moadian/pipeline.py: the serial counter, and invoices on their way to the organization.
pub mod Serial
pub mod Submit
pub mod Await
