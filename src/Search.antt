-- ===== src/Search.antt =====
-- frontend/src/lib/search.ts: the query of a search, the recent searches and the answers; and the
-- palette of frontend/src/components/client/search/search-combobox.tsx.
pub mod Query
pub mod Recent
pub mod Answers
pub mod Palette
pub mod PaletteEvents
pub mod Consistency
pub mod Race
pub mod Page
pub mod Freshness
pub mod PageRuns
