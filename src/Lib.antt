-- ===== src/Lib.antt =====
-- modelwrap packs a model directory into one immutable file: an EROFS image followed by a dm-verity
-- hash tree (MWP), and optionally the encryption of that file inside a GPT image (EMWP). A
-- reference, rootHash_hashOffset_uuid, names the artifact, and consumers open it from the reference
-- and the model's identity alone. This library models the parts that decide what the bytes are, what
-- is accepted, and what is reused, published and deleted.
--
-- Files, and the code that they follow:
--   Prelude and below     tests, lists, results, byte strings, decimal numbers, strings.TrimSpace
--   Ref                   modelwrap.go: ArtifactRef, ParseRef, String, ArtifactID, HashOffsetBytes
--   Disk                  an open file: ReadAt, WriteAt, size
--   Verity                verity.go: VeritySalt, VerityParamsForArtifact, VeritysetupArgs
--   Format                verity_format.go: Superblock is veritySuperblock, Geometry the sizes and
--                         places of levels and tasks, Level is verityHashLevel (Level/Pool: its
--                         goroutines), Driver is FormatVerityHashTree (Driver/Device: on a device
--                         whose calls can fail)
--   Build                 wrap/wrap.go: buildMWP behind mkfs, VerifyMWP, parseInfoFile; and
--                         unwrap/unwrap.go: OpenVerity
--   Crypt                 crypt/crypt.go: Encrypt, Decrypt and the two streams
--   Emwp                  wrap/wrap.go: encryptEMWP, VerifyEMWP; modelwrap.go: DeriveKey
--   Model                 wrap/delete.go: validatePinnedModel, splitPinnedModel, isStagedLeftover; and
--                         the names that stagedPath makes in wrap/wrap.go
--   Artifacts             wrap/wrap.go: checkExistingArtifacts, readSchemaSidecar, writeStaged,
--                         publishArtifacts; Artifacts/Deletion: the removals of Delete
--   Delete                wrap/delete.go: Delete, over the names in a model's directory; Delete/Prune is
--                         pruneEmptyParents
--   Schema                schema.go: the registry of pack schemas
--   Lock                  wrap/wrap.go: acquireArtifactLock, and the unlinking of its file by Delete
--   Cli                   cmd/modelwrap/main.go: parseArgs and main, with the flag package (Cli/Flags,
--                         Cli/Int); cmd/modelwrap/launcher.go: dockerRunArgs and launch
--   Key                   modelwrap.go: ParseMasterKey; wrap/wrap.go: loadMasterKey
--   Pack                  wrap/wrap.go: Pack over the directory of a revision; Pack/Resolve is
--                         resolveModel (Resolve/Hub: resolveHFRevision, and the arguments of
--                         downloadModel), Pack/Driver the whole of Pack; Pack/Fresh and Pack/Sealed are
--                         a first run, Pack/Again a second one
--   Shared                wrap/wrap.go and wrap/delete.go: runs of Pack and Delete on one revision at the
--                         same time, with crashes, on top of Lock
--   Seed                  wrap/seed.go: Seed/Listing is listLFSFiles, Seed/Workers the goroutines of
--                         seedFiles, Seed/Driver seedFromPreviousRevisions
--   Unwrap                unwrap/unwrap.go: the commands that it runs, and OpenCrypt and Mount
--   Tests                 the theorems at concrete inputs
--
-- How the state is modelled. A file is its size and its bytes; an operation that writes returns the
-- file that it leaves. The published names of one revision are a record of five entries, and each
-- operation is a function of it that also takes which system calls fail. The workers of a level are
-- a step relation on the task counter, the phase of each worker, the file and the first error, over
-- a device that can fail in any read or write, where a failed write may leave a part of it; the
-- processes that take the artifact lock are one on the lock file's path, its owners and their
-- phases; the workers of seedFiles are one on the paths below the model's directory, the paths
-- below its siblings, which other processes may change at any time, and the phase of each worker. A
-- run of Pack is an action on the directory of its revision that gives a value or an error; runs
-- that share a revision are a step relation on the lock, the directory and what each process is at,
-- with a step for each change of a published file. The streams of crypt.go are a loop on the
-- source, the chunk size and the counters. Machine integers are natural numbers with the wrap-
-- around written out, but for the sizes in the layout of the EMWP image, which the theorems bound by
-- 2^62. An entry of a directory is absent, a file with its bytes, or one that cannot be examined or
-- read; a file that can be examined and not read is not told apart from the last.
--
-- A launch is the arguments of docker; what a container has in its environment is the image's variables
-- (Dockerfile) and, for the token, what `-e` in those arguments hands on. The cache is a set of paths,
-- and removing a directory removes what lies below it. A source of a stream ends cleanly, with an
-- unexpected end of file, or with another error.
--
-- Libraries are parameters: SHA-256 (a function to 32 bytes), XTS (a length-preserving inverse pair
-- per key and sector number), HKDF, strict base64, the uuid package, sgdisk, mkfs.erofs,
-- veritysetup, and what the Hub and the host answer.
--
-- Fuel. The loop over levels has 64 rounds: each divides the number of blocks by 128, rounding up, and
-- a uint64 needs at most ten. The stream has one round more than there are whole chunks in its
-- source, and each round but the last takes a whole chunk. The listing of the Hub asks for the 10000
-- pages that the source allows.
--
-- Not modelled: the mode bits of published files, the download itself, the run of docker, what is
-- printed, and the programs that unwrap/unwrap.go runs.
pub mod Prelude
pub mod Ref
pub mod Disk
pub mod Verity
pub mod Format
pub mod Model
pub mod Crypt
pub mod Artifacts
pub mod Build
pub mod Emwp
pub mod Schema
pub mod Lock
pub mod Cli
pub mod Key
pub mod Pack
pub mod Seed
pub mod Delete
pub mod Unwrap
pub mod Shared
mod Tests
