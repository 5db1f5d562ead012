-- ===== src/PathClassifier.antt =====
-- internal/enrich/untracked/pathclassifier: the rules that classify a path. The children are the trie
-- of trie.go and the dispatch of classifier.go.
pub mod Trie
pub mod Classify
pub mod TrieLaws
pub mod Laws
pub mod MergeLaws
mod Tests
