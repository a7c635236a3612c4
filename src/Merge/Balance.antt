-- ===== src/Merge/Balance.antt =====
-- The accounting check of src/indw/schedule/monitor/invariants.py against what a line counts for.
use instant_ai_data_workflow.Prelude.{string_eq, nat_eq}
use instant_ai_data_workflow.Prelude.Dict.{Dict}
use instant_ai_data_workflow.Merge.Lines.{Merge}
