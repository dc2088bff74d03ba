-- ===== src/Base.antt =====
-- src/common/base: the repository over one table (repositories/base.repository.ts) and the template
-- methods of the generic providers (providers/base-*.provider.ts). The database is the SQL that the
-- repository's calls stand for, over the rows of a table in the order in which a query returns them;
-- its failures other than a duplicate or foreign key at an insertion and a restricted deletion are left out of
-- them, and mapped to answers in Errors.
pub mod Errors
pub mod Classified
pub mod Listing
pub mod Sorted
pub mod Pages
pub mod Created
pub mod Repository
pub mod Providers
