-- ===== src/Registry.antt =====
-- internal/enrich/registry: metadata of packages from registries, by resolver.go with the memory cache of
-- cache.go and the enricher of enricher.go. A source is what it answers; the time and the logs are left to
-- parameters or left out.
pub mod Resolve
pub mod Apply
pub mod Run
pub mod CacheLaws
pub mod Growing
pub mod Merging
pub mod Stamps
pub mod KeepLaws
mod Tests
