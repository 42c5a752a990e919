-- ===== src/Lib.antt =====
-- The core services of the document management backend (backend/apps, backend/common): documents with
-- their versions and files, folders, permissions and grants, temporary access by token, and the tasks
-- in which a user has a document written by the generation engine.
--
-- The program. A Django application keeps its state in a database and in files under a storage root.
-- Views validate the input and call service functions; a service function runs in a transaction,
-- reads rows under a lock, checks permissions and rules, writes rows, and adds an entry to the audit
-- log. The document service writes and deletes files around its transactions. A generation task goes
-- from a draft over the extraction and confirmation of facts to the generation of sections, their
-- review and the export of a DOCX file. Users drive it through the services; a worker process takes
-- jobs from a queue, in transactions of its own between which users go on editing or stop the task.
--
-- The files. `Schema` has a record for each table (backend/apps/*/models.py) and `Db`, which holds a
-- list of rows for each. `Outcome` has the exceptions and fallible code. `Prelude` and `Text` have
-- helpers on lists, rows and strings.
--   Uploads              backend/common/validators.py
--   Audit                backend/apps/audit/services.py
--   Projects.Membership  backend/apps/projects/selectors.py, permissions.py; apps/folders/permissions.py
--   Folders.Defaults     backend/apps/folders/defaults.py
--   Folders.Personnel    backend/apps/folders/personnel.py, with the search in Folders.Descendants
--   Folders.Services     backend/apps/folders/services.py
--   Access.Selectors     backend/apps/access/selectors.py, permissions.py
--   Access.Grants        backend/apps/access/services.py
--   Access.Temporary     backend/apps/access/temporary_services.py
--   Documents.*          backend/apps/documents/permissions.py and services.py: `Permissions`,
--                        `Guards` (the private helpers), `Operations` (changes of one row), `Files`
--                        (uploads), `Removal` (downloads and permanent deletion)
--   Documents.Selectors  backend/apps/documents/selectors.py, backend/apps/projects/selectors.py
--   Generation.Schema    backend/apps/document_generation/models.py, engine/contracts.py, with `Store`
-- and below backend/apps/document_generation:
--   Generation.Guards    permissions.py, and the private helpers of services.py
--   Generation.Prompts, Context, Requests, Sources, Compile, Sections, Review, Export, ExportNames
--                        services.py, in this order; selectors.py and conversation_sources.py
--   Generation.Events    workflow_events.py
--   Generation.Drafts    repositories.py
--   Generation.Failures  `_record_failure` of jobs.py
--   Generation.Jobs      the transactions of jobs.py, and artifacts.py
--   Generation.Worker    the two jobs, put together from these
--   Generation.Queue     queues.py, recovery.py
-- A definition bears the name of the function it translates, without a leading underscore. The other
-- modules below these hold proofs and are named for what they prove; `Tests` runs the services on a
-- small database.
--
-- How state is modelled. An operation takes the request, its arguments and the database and returns
-- `Result` of what it returns and the new database; an exception in a transaction leaves no new
-- database, as the rollback does. Operations that touch files take and return a `System`, the database
-- and the paths at which files stand. A call is one step, as its row locks make it; what it read
-- before it took the locks it reads again, or is an argument. `disable_folder`, the walk to the ancestors in `move_folder`, and the upload's first
-- check take no lock: that nothing else runs in between is an assumption there. Where the source goes on with an object
-- that its caller read, the object is the argument, so that it may be stale. Each reading of the clock
-- in a call has a number of its own (`Request.now`), and nothing is assumed of the readings.
-- Objects that a view prefetches are taken to be those of the same query.
--
-- The generation keeps its tables, the `Db` of the other services and the callbacks of `on_commit` in a
-- `Store`. `Generation.Flow.Steps` has a relation `Run`: a sequence of calls of the services and of
-- transactions of the worker, each with its own request and arguments, in any order; each has a
-- kind, and each kind has edges of its own in the diagram of the statuses. So a stop of the
-- user between two transactions of the worker is a run like any other, and the theorems on runs do not
-- depend on what the engine does in between. The call of the queue behind a commit is no step: it writes
-- no table while the queue is reachable.
--
-- Fuel. The search for descendants runs one round more than there are folders: a round that finds
-- nothing ends it, and any other one makes the set grow. The walk of `_is_descendant` has as much
-- fuel, which is more than the length of a chain of parents without a cycle; along a cycle the source
-- would walk for ever. The walk of `_folder_is_within_root` stops at a folder it has visited.
-- The walk from a source's folder to the root, `entry_walk`, has one step more than there are folders,
-- more than any chain of parents without a cycle has.
--
-- Parameters. The hash of tokens is an arbitrary function, a fresh token an argument. What reading an
-- upload yields (its first bytes, the directory of a zip file, digest, size and path of the stored
-- copy) are fields of `UploadedFile`. Whether a backup is running is an argument. Python's decoders of
-- texts, the digests of a prompt and of a request's JSON text (`fingerprint`), the layout that is read from
-- a template's file (`infer_layout`), the checks of facts against the parsed files (`Checks`), the
-- renderer of DOCX files (`Exporter`), and the engine and the extraction as functions on the store are
-- parameters of the definitions that call them. The queue is a list of keys of jobs, or not reachable.
--
-- Not modelled. Snapshots and HTTP data in the audit log; input and output errors of the file system;
-- columns that no modelled operation reads; case mapping of letters outside ASCII;
-- the collation of the production database, for which names and titles that differ in case alone are
-- equal, where the model compares them letter by letter; the database's
-- own constraints but for the unique hash of a token. That the serializers strip a title and refuse
-- an empty one is a hypothesis where a theorem needs it. Texts that users read, titles and details of
-- events and the risk profile of a task are left out. Not modelled at all are the
-- ZIP downloads, the project service, accounts, sessions, backups, the inside of the generation engine
-- (rules, merging of facts, validation, retrieval, orchestration, rendering), the assembly of its
-- requests, templates that users add, uploads to the corpus, HTTP glue and the
-- clients of language models.
pub mod Prelude
pub mod Text
pub mod Outcome
pub mod Uploads
pub mod Schema
pub mod Audit
pub mod Projects
pub mod Folders
pub mod Generation
pub mod Access
pub mod Documents
pub mod Tests
