-- ===== src/Lib.antt =====
-- BuildBeaver is a build system: a server keeps builds, jobs and steps in a database and hands jobs to
-- runners, which poll it for work. This library models the parts that decide what runs, when, and with
-- what result.
--
-- Base: the shared names, Boolean tests on numbers and lists. Models (backend/common/models): statuses
-- (`WorkflowStatus` with `Scan` and `Value`), resource names and node names (`NodeFQN`), and the
-- records of jobs, steps and builds with their `Validate` methods. A Go string is the list of its
-- bytes, and an ID is a number that is zero if it is not valid. Messages of errors are not kept.
--
-- Graph (backend/server/dto/build.go, job.go and dag.go): the graphs of a build's jobs and of a job's
-- steps, with their edges, validation and trimming. A vertex is a position in a list. The library below
-- backend/server/dto/dag, a copy of another project's, is a parameter (`DagLib`): whether it accepts a
-- graph, in which order it walks, and what is below a vertex.
--
-- Queue (backend/server/services/queue/queue_service.go and what it calls): the database is a record of
-- tables, a table is a list of rows (Queue/Table), and a transaction is a computation that passes the
-- database on and may end with an error (Queue/Transactions), after which nothing of it is left.
-- Transactions run one at a time, as the row locks of the code make them. Queue/Services has the
-- operations of the stores and of the log, event and build services; Queue/Updates has `UpdateJobStatus`,
-- `UpdateStepStatus`, `updateBuild`, `updateJob`, `updateStep` and `maintainBuildStatus`;
-- Queue/Selection has the queries of backend/server/store/jobs/jobs.go, where `FindQueuedJob` is a test
-- on rows; Queue/Dequeue has `Dequeue` and `UpdateJobFingerprint`; Queue/Dependencies has the creation
-- of a job and of its dependencies (backend/server/services/job/job_service.go); Queue/Timeouts has the
-- check of timeout_checker.go, without its timer; Queue/Enqueue has `EnqueueBuildFromCommit`,
-- `EnqueueBuildFromBuildDefinition`, `AddConfigToBuild` and what they call, where the parser and the
-- hash of a definition are parameters (`Definitions`). The hashes that make ETags, and the
-- signing of tokens, are parameters (`Env`). The clock is the time of the transaction, and what the blob store lists for
-- a log, or that it fails to, is a part of the database's record.
--
-- Parser (backend/server/services/queue/parser): `Parse` and both versions of build definitions, from decoded
-- values (Parser/Raw) to jobs. Parser/Patterns has the regular expressions as tests on the parts of a line,
-- Parser/References the dependencies of jobs, Parser/Fields the parts of jobs, Parser/Jobs version 0.3,
-- Parser/Version2 what version 0.2 does otherwise, and Parser/Versions `Parse` and the normalisation of
-- YAML, where the libraries that decode are a parameter (`Readers`); `parser_definitions` gives the parser
-- to the model of the queue.
--
-- Paging (backend/server/store/resource_table.go): `ListIn` with its cursors, and the loop over the pages of a
-- listing. The loop has one page more than there are rows as its bound, which is more than it needs. Access
-- (backend/server/services/sync/sync_service.go, backend/server/services/group/group_service.go and the
-- stores of grants, groups and memberships): the permissions of a group and the groups of a company are
-- made those that the source control manager lists, and members of a group that it does not list are removed;
-- what it lists is a parameter, as is the text of an ID.
--
-- WorkQueue (backend/server/services/work_queue, backend/server/store/work_items and work_item_states):
-- items that share a concurrency key share a state, which is allocated to one processor for a time.
-- Handlers and backoff algorithms are parameters of a registration, and failures of the database are a
-- parameter of the updates, which are retried at most 60 times, as `workItemUpdateRetryAttempts` says.
-- The intervals of `ExponentialBackoff` are computed with floats in the source; those are exact for
-- intervals below 2 ^ 53 nanoseconds.
--
-- Logs (backend/server/services/log): the chunks of a log are merged into windows of sequence numbers,
-- over a list of windows that each have a list of chunks (window_assembler.go). Logs/Writer has the loop
-- of writer.go, with its buffer and the chunks it puts, and Logs/Reader the reading of a window
-- (window_reader.go), where the blob store and the decoding of JSON are a parameter.
--
-- Runner/Scheduler (backend/runner/scheduler.go): the loop of the job scheduler as a step relation, where
-- each round handles one event; counters that the source does not have tell how many goroutines of each
-- kind are in flight; the number of parallel jobs is an integer, which the command line may set to a negative
-- one. Runner/Orchestrator (backend/runner/orchestrator.go): the execution of one job; the
-- parallel walk over its steps is a step relation in which the callbacks of steps interleave, and the
-- answers of the server and of the executor are inputs. Runner/Fingerprints
-- (backend/runner/fingerprint_hasher.go and `fingerprintJob` of backend/runner/executor.go): the
-- fingerprint of a job, for any digest. Runner/Scrubbing (backend/runner/logging/log_scrubber.go): the
-- scrubbing of secrets from a log, where what is passed on is a result of each operation. Runner/Secrets
-- (backend/runner/secret_store.go, and `AddStandardGlobalEnvVars`, `makeEnvMappings` and `getDockerAuth`
-- of backend/runner/executor.go): the secrets of a job and what is made of them; upper case is that of
-- ASCII texts. Runner/Sequencing (backend/runner/logging/log_sequencer.go): the numbering of log entries,
-- which the reader of a window relies on. Recursion is structural in all parts; only the retries have a bound, and the calls of `Next` a number that the
-- chunks' items bound.
--
-- Not modelled: the merging of several logs into one stream, and the rest of the log pipeline; the rest
-- of the executor, the runtimes, the REST API, the interface of GitHub, legal entities and the
-- members of companies, credentials, blobs and the command line, which mostly pass data to libraries, to the file
-- system or to the network.
mod Base
pub mod Models
pub mod Graph
pub mod Queue
pub mod WorkQueue
pub mod Logs
pub mod Runner
pub mod Access
pub mod Paging
pub mod Parser
