-- ===== src/Lib.antt =====
-- Realize, a file synchroniser: a model of its core in antt, with the theorems that make it correct.
--
-- A peer keeps, for each arena (a directory tree that peers share), a database of the files that it
-- and the other peers have. File content is fetched in pieces: a set of byte ranges says which parts
-- of a file are there. The churten process takes jobs (download, realize, unrealize a path) from the
-- engine of an arena, runs them, and publishes notifications; every client follows the jobs with a
-- tracker that is fed those notifications.
--
-- The files, and the code that they model:
--
--   Prelude            tests and lists over the native numbers; Prelude/Table is an ordered table
--                      with number keys (`BTreeMap<u64, V>`), Prelude/Eq maps with keys that can be
--                      compared (`HashMap`), Prelude/Order tables in the order of any keys (redb)
--   ByteRange          `ByteRange` and `ChunkIterator`, crate/realize-types/src/byterange.rs
--   ByteRanges         `ByteRanges`, `ByteRangesIter` and `Merged` of the same file. The `BTreeMap`
--                      of points is a table; each loop over merged points is a function that carries
--                      the depth, the result and whether every `debug_assert!` held
--   FilePath           `Path`, crate/realize-types/src/path.rs, a text as the list of its characters
--   Data               identifiers and jobs that several parts share
--   Tracker            `JobInfoTracker`, crate/realize-core/src/consensus/tracker.rs, with the
--                      notifications of crate/realize-core/src/consensus/types.rs
--   Dirty              the dirty path tables and their transactions,
--                      crate/realize-storage/src/arena/engine.rs (`DirtyPaths`, `Engine::job_done`,
--                      `job_failed`, `delete_range`, `clear_dirty`, `take_dirty`). The four redb tables
--                      are the fields of one record, and a committed transaction is one function on it
--   Engine             the jobs of the same file: `build_job`, `next_job`, the rounds of `build_jobs` with
--                      the jobs sent as a list, and the choice of `wait_until_next_backoff`. What a read
--                      transaction finds in the cache, the index, the marks and the blobs is a record
--                      of functions
--   Marks              `PathMarks`, crate/realize-storage/src/arena/mark.rs: a Boolean says whether files are
--                      marked dirty, and Marks/Marking does so in the index and the cache, which share
--                      the dirty tables: both records have them
--   Inodes             `InodeAllocator`, crate/realize-storage/src/global/inode_allocator.rs. The tables of
--                      the global database and the current ranges of the arenas are one record
--   Storage            `StorageError`, crate/realize-storage/src/error.rs, results, and the entries of files,
--                      crate/realize-storage/src/global/types.rs
--   Blobs              `Blobstore` and (in Blobs/Handle) `Blob`, crate/realize-storage/src/arena/blob.rs. The
--                      blob table and the files of the blob directory are one record; what the file of
--                      a handle answers to a read, a write or a seek and what becomes of a task are arguments
--   Notifications      `Notification` and `Progress`, crate/realize-storage/src/arena/notifier.rs
--   Index              `RealIndexBlocking`, crate/realize-storage/src/arena/index.rs: the file table in the
--                      order of its keys, the history, and the dirty path tables it shares with the
--                      engine. The metadata of local files is an argument
--   Cache              `ArenaCache`, crate/realize-storage/src/arena/arena_cache.rs: directories and paths;
--                      Cache/Files has the entries of the peers and the default entries, Cache/Updates
--                      the notifications, Cache/Content the blobs of files, Cache/Marking
--                      `mark_dirty_recursive`: its fuel bounds the depth, and a bound of the inodes
--                      is enough when inodes grow from a directory to its entries. The clock and the order in
--                      which a `HashMap` gives its entries are arguments
--   Notifier           `subscribe`, crate/realize-storage/src/arena/notifier.rs: the notifications up to the
--                      history index at the time of the subscription, as a list
--   Tests              the theorems applied at concrete inputs
--
-- Parts interact by calls: the engine takes its entries from the dirty path tables, parses their paths
-- and deletes the entries without a job; the tracker uses the jobs of Data; sets of ranges are built
-- from single ranges. The index and the cache mark paths dirty in the tables that the engine reads; the
-- cache takes inodes from the allocator, and creates, fills and deletes blobs; a blob keeps what was
-- written of it as a set of ranges.
--
-- Bounds and fuel. Offsets are `u64`: their sums are written modulo 2^64, as a release build computes
-- them, and a theorem that needs a sum not to overflow says so. The depth of the set operations is an
-- `i32`, modulo 2^32. The chunk iterator is run on fuel; one unit more than the range has bytes is
-- enough. The loops over the tables of the engine follow the list of entries, and `delete_range`
-- counts its rounds. The parents of a path are followed on fuel for one round more than the path has
-- characters, which is always enough. Times are in nanoseconds, and a backoff is stored in whole
-- seconds. A database error ends an operation of the code without a commit; the model has the runs
-- without one, but for the handles of blobs, whose calls may find that the database fails or that the
-- task they started is not joined. The code asserts that a notification is for the arena of its cache; the
-- model does not look at the arena there. The view that the engine has of its arena has no errors. The errors that the code itself raises (not found, not a directory, is a directory, an
-- unknown arena, a key that is no path) are results, and a result with an error carries no state. Inodes
-- that a failed transaction of the cache took from the allocator are not counted as taken.
--
-- Not modelled: capnp and tarpc transport, the NFS server, the tokio tasks and channels, redb itself
-- (a table stands for it), the hash computation, the display and logging code, and the command-line tools.
pub mod Prelude
pub mod ByteRange
pub mod ByteRanges
pub mod FilePath
pub mod Data
pub mod Tracker
pub mod Dirty
pub mod Engine
pub mod Inodes
pub mod Marks
pub mod Storage
pub mod Blobs
pub mod Notifications
pub mod Index
pub mod Cache
pub mod Notifier
pub mod Tests
