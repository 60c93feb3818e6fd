-- ===== src/Lib.antt =====
-- ContentOps keeps the security content of a tenant (Sentinel rules, watchlists, playbooks,
-- Defender detections) as YAML files and deploys it. `apply` loads the files, passes them through
-- the safety gates, and hands each asset to the handler of its kind, workspace by workspace; every
-- outcome goes into a hash-chained audit trail and into the environment's state. `prune` deletes
-- remote assets that have no local file. All handlers talk to the cloud through one retry and one
-- pagination routine.
--
-- Prelude: the names and lemmas that the modules share: Boolean tests and equality (Tests), lists
-- and dictionaries as association lists (Lists), Python's order of texts (Order), its stable sort
-- (Sort).
--
-- Asset (contentops/core/asset.py, core/result.py): kinds, modes, apply order, plan actions,
-- results.
-- EnvStatus (contentops/core/env_status.py, models.py): the statuses that an environment accepts.
-- Config (contentops/config.py, cli/commands/_shared.py): safeguards, the lookups of workspaces,
-- and `asset_mode_for`. A tenant is none where there is no tenant.yml.
-- Loaded (contentops/core/handler.py): loaded assets, and handlers as records of their methods.
-- Registry (contentops/core/registry.py): the handler registry with its cached instances; what a
-- factory call returns is a parameter.
-- Dependencies (contentops/core/dependencies.py): `_index_by_asset` and `validate`.
--
-- State (contentops/state.py): `EnvState` with `remember`, `forget`, `is_managed`, `asset_count`,
-- the merge of apply results and `classify_remote`. Loading and saving the file is not modelled.
--
-- Audit (contentops/audit/writer.py): Record is `AuditRecord` with what the module takes from json,
-- hashlib and datetime (`Codec`, with the laws `IsCodec`); Chain is `_monotonic_timestamp` and
-- `_chain_records`, with none where the next microsecond is past the year 9999; Tail is
-- `_last_record_tail`; Verify is `verify_chain`; Write is `write_records` and
-- `write_records_with_retry`. A file is unreadable, not UTF-8, or its lines with whether the last
-- one is ended by a newline (`Content`); the directory is a list of files in the order of their
-- names. The laws of timestamps are for the instants that datetime has (`IsInstant`). Another
-- writer may act between any two steps of `write_records`, so the directory at each step is an
-- argument (`Views`). The number of attempts bounds the retries, as in the source.
--
-- Http (contentops/utils/http_retry.py): Retry is `parse_retry_after` and `request_with_retry`,
-- where the server is a function of the number of the call and time is in milliseconds (a
-- Retry-After of nan is a case of its own, as sleep raises on it); Paginate is `url_origin`,
-- `is_same_origin` and `paginate`, with `urlparse` a parameter. The bounds of the two loops are
-- `max_retries` and `max_pages`, the source's own, so no fuel is added.
--
-- Apply (contentops/cli/commands/apply.py, apply_support.py): Order is `ordered_for_apply`; Gates
-- are the checks and filters before the deployment; Run is the loop over workspaces and assets,
-- with `calls` for the calls of `handler.apply` and `crashed` for an exception that nothing
-- catches, which ends the run; Outcomes are the audit records and the state inputs; Command is
-- `apply_cmd` up to its exit code. The handlers, the substitution in query texts, its digest and
-- `asset_mode_for` are the record `Services`, which Run takes as a parameter.
--
-- Prune (contentops/cli/commands/prune.py, and `_local_index` of core/drift.py): Plan is the plan
-- phase; Run has the safeguards, the refusals, the delete phase and the audit records. The cap of
-- deletions is a natural number, so a negative --max-deletes is not modelled.
--
-- Alerts (contentops/alerts): Model is `NormalizedAlert` with its `merge` and the readings of
-- Sentinel's words (models.py); Merge is `merge_alerts`, whose loops carry the record `Merging`;
-- Overlay and Daily are the two overlays of ARM incidents, and Enrich is `enrich_from_graph`
-- (merge.py); Ledger is the ledger file with its rebuild from the daily files (ledger.py). Times
-- are values of a type that is a parameter.
--
-- Telemetry (contentops/rule_keys.py): the keys of a rule and `TelemetryIndex`.
--
-- Lifecycle (contentops/lifecycle.py): Gates are the four promotion gates, with the workspace's
-- queries as functions that return none where they raise; Stamp is the edit of the status line and
-- of the lifecycle block, on the lines of the file, with the regular expressions as tests on lines;
-- Promote is `promote` and `promote_many` over a list of files. The false-positive rate and its
-- threshold are fractions, compared exactly, where the source divides floats.
--
-- Drift (contentops/core/drift.py, utils/slug.py): Slug has the ids of names; Detect is
-- `_local_index`, `disambiguate_envelope_ids` and `detect_drift`, whose parameter is the comparison
-- of two payloads, for which Normal has `_normalize` and `_payloads_match`. A report is the list of
-- its entries.
--
-- Tests: sample data and the theorems at concrete inputs.
--
-- Not modelled: console output, reports, YAML and JSON parsing, git, the cloud clients of the
-- handlers, and the other commands. What is read from the clock, the environment and the file
-- system is an argument.
pub mod Prelude
pub mod Asset
pub mod EnvStatus
pub mod Config
pub mod Loaded
pub mod Registry
pub mod Dependencies
pub mod State
pub mod Audit
pub mod Http
pub mod Apply
pub mod Prune
pub mod Alerts
pub mod Telemetry
pub mod Lifecycle
pub mod Drift
mod Tests
