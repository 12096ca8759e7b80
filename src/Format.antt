-- ===== src/Format.antt =====
-- verity_format.go: the native dm-verity formatter. This file holds the level hasher and the driver;
-- the geometry and the superblock are in child modules, as are the proofs.
pub mod Geometry
pub mod Superblock
pub mod Level
pub mod Driver
