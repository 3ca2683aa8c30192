-- ===== src/Orchestrator/Errors.antt =====
-- The exceptions of src/orchestrator, one constructor for each `raise`, and the division by zero
-- that the scheduler can meet.
pub data Error : Type 0 where
  max_records_not_positive buffer_full start_after_end : Error
  cut_end_not_positive no_buffered_records cut_start_after_end : Error
  timestamp_not_monotonic interval_required division_by_zero : Error
  cannot_start cannot_drain : Error
  ingestion_failure buffer_append_failure engine_run_failure publish_failure : Error
