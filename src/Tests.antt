-- ===== src/Tests.antt =====
-- The theorems at concrete inputs, with concrete libraries in place of the parameters.
mod Data
mod Names
mod Files
mod Hashing
mod Payload
mod Schemas
mod Locking
mod CommandLine
mod Keys
mod Packing
mod Seeding
mod Deleting
mod Sealing
mod Sharing
