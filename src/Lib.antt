-- ===== src/Lib.antt =====
-- Models of task-rs, a task runner that reads Taskfiles.
--
-- A Taskfile names tasks and includes other Taskfiles. The reader puts the files into a graph
-- without cycles and merges each into the ones that include it; the tasks of an included file get
-- its namespace. A run finds a task by its name, by an alias or by a pattern with wildcards, and
-- suggests the nearest name when there is none. A task with `sources` is run again when a file that
-- its patterns select has changed, so the matcher of patterns, with its exclusions, decides what
-- is hashed, and a walk of the file system leaves out the directories that an exclusion covers.
--
-- Before a task is started, its path is checked for a cycle and its calls are counted, and a limiter
-- bounds how many tasks run at a time. With `run: when_changed` a task of the same identity, a digest
-- of its canonical encoding, runs once. The outputs of a task can be stored as an artifact in a
-- registry and restored from it: the index of an artifact, the names of its entries and the links
-- among them are not trusted.
--
-- Which file models what:
-- Base: Boolean tests, lists, text as lists of code points, ordered maps as lists of pairs, `Result`,
-- and integers of 64 bits.
-- Glob: crates/taskcore/src/fingerprint/glob.rs. Star is the table of `star_match_with`, Bracket the
-- expressions of `match_bracket`, Segment one segment of a path (`tokens`, `glob_match`,
-- `matches_segment`), Path the splitting of paths and `match_segments`, Pruner the directories
-- that an exclusion covers, Exclusion the compiled exclusions of `Exclusion`, `Exclusions` and `Matcher`, and
-- Cache the matcher of a restore, `CacheMatcher`.
-- FilePath: crates/taskcore/src/filepathext.rs, `clean` and the joins, which Cache uses.
-- Graph: crates/taskcore/src/ast/graph.rs, `add_vertex`, `add_edge` and `reaches`.
-- Fuzzy: crates/task/src/fuzzy.rs, `levenshtein` and `suggest`.
-- Taskfile: Names and Merge are crates/taskcore/src/ast/tasks.rs, Vars is vars.rs with var.rs and
-- include.rs, Task and Wildcard are task.rs, File is taskfile.rs. Merge/Placed and Merge/Brought write
-- out what becomes of the names, references and fields of an included task.
-- Retry: crates/ocicas/src/retry.rs, `retry_paced` and `is_transport`, with the errors of error.rs.
-- Executor: crates/taskcore/src/executor/run.rs, `CallPath` and the guards of `run_task_on`; Calls is
-- the matching of calls to tasks and the split of watched calls.
-- Limiter: crates/taskcore/src/concurrency.rs, with the runs of the tasks on one limiter as steps.
-- Hash: crates/taskcore/src/hash.rs. Bytes is the `Encoder`, Value `encode_value`, Fields the encoders
-- of the fields and `call_key`, Task `encode_task`; Code is what it is to be read back from bytes.
-- Ocicas: crates/ocicas. Names is `components` of restore.rs, Entries its checks on a set of entries,
-- Resolve its `resolve_link`, Index the reading of an index in index.rs, and Assemble the checks of
-- `assemble` in cas.rs.
-- Requires: crates/taskcore/src/requires.rs, the checks of required variables.
-- Platform: crates/taskcore/src/ast/platforms.rs with the names of goext.rs.
--
-- How the state corresponds: an `IndexMap` is a list of pairs in the order of insertion, and so is
-- a `HashMap` whose order does not show. A `String` or a `[char]` is its list of code points; a
-- byte offset at the boundary of a character is the number of code points before it. A function
-- that writes `&mut self` takes the old value and returns the new one. A YAML value, and the fields
-- that a merge carries along unread, are of parameter types.
--
-- Bounds: `usize` is 64 bits wide where its saturation can show. The fuel of `tokens` is the length
-- of the pattern, and a token takes at least one character of it; the fuel of `reaches` is two more
-- than the number of the edges, and each turn of its loop pops a vertex that an edge pushed; the
-- fuel that drops trailing double stars is the number of the segments.
--
-- The loop of `resolve_link` is recursion on the queue up to a link, and on the links that are still
-- allowed, which start at the 40 of `MAX_LINK_HOPS`. An `i64` is an integer whose checked sum is
-- nothing outside 64 bits; a length is written in 8 bytes, low byte first.
--
-- The loop of `retry_paced` is recursion on the attempts that are left. `Duration` is counted in
-- nanoseconds up to `Duration::MAX`.
--
-- Parameters: whether a path is a directory, which the matching of an exclusion asks of the file
-- system; the outcome of each attempt of a request; the errors of reqwest, hyper and std::io, by what
-- the code asks of them; what a YAML value is as a string; the semaphore of tokio, by what it
-- documents; the zstd decoder and the reader of JSON; what the disk holds at a path; the digest of an
-- encoding, and the texts of numbers and tags.
--
-- Not modelled: the file system, processes, the network, YAML and the templates' language. A
-- deserializer is left out, since its input is what the YAML library made of a document.
pub mod Base
pub mod Executor
pub mod FilePath
pub mod Fuzzy
pub mod Glob
pub mod Graph
pub mod Hash
pub mod Limiter
pub mod Ocicas
pub mod Platform
pub mod Requires
pub mod Retry
pub mod Taskfile
