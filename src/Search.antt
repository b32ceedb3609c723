-- ===== src/Search.antt =====
-- Searching a text in lines (src/ui/TextMatcher.cpp, src/ui/components/views/CodeFinder.cpp).
pub mod Matcher
pub mod CodeFinder
