-- ===== src/Identity.antt =====
-- source_identity.py: versioned identities of the objects that a source owns. `Record` has the
-- identity and its NetBox record, `Rank` the match of stored records against one identity,
-- `Merge` the write of an identity beside those of other owners, `Select` the choice of the best
-- candidates and `Builders` the identities of discovered objects.
pub mod Record
pub mod Rank
pub mod Ranked
pub mod Merge
pub mod Select
pub mod Builders
