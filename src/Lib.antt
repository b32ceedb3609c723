-- ===== src/Lib.antt =====
-- Workpane: the core of the product, a host of Lua plugins.
--
-- The development follows the folders of the sources.
--   Prelude: shared names, Boolean tests and lists over the native numbers.
--   Result: src/Result.h and src/Error.h.
--   Text.Utf8: src/text/Utf8Helper.cpp. `valid` and `truncated` are its loops over the bytes that are
--     left; the loop of `valid` has a round for each byte, which suffices since each takes one or more.
--   Text.Base64: src/text/Base64Helper.cpp, with the 32-bit buffer of `decode` wrapping.
--   Execution.MainThread, Execution.Workers: src/execution. Each section under the lock is one step,
--     and a history is any list of steps, so every interleaving of the threads is covered. So is each
--     notification of the condition variable of the pool, which wakes a thread that sleeps.
--   Logging.Service: src/logging/LogService.cpp, in the same way.
--   Terminal.Stream: src/ui/components/terminal/TerminalStream.cpp, whose sizes are 64-bit words.
--   Terminal.Selection: src/ui/components/terminal/TerminalSelection.cpp. The screen that libvterm keeps
--     is a parameter, by its size and the text of a cell; `run_on` has a round for each column.
--   Terminal.Finder: src/ui/components/terminal/TerminalFinder.cpp over the same screen. Its loop has a
--     round for each line; the numbers of lines stay below the bounds of their types.
--   Process.ProcessText: src/process/ProcessText.cpp, whose loop has a round for each byte.
--   Surface: src/ui/model, the trees of components that plugins mount. Tree has the components, Classes
--     what the store asks of their kinds and of the JSON reader, Build the recursion of
--     `SurfaceStore::build` from the JSON, Visit a call of one component in its tree, and Store the
--     operations, with an abstract map in Store/Abstract. `build` is on fuel, one unit for each level:
--     at depth 65 it refuses, so the 65 units that `mount` gives it are never short. The order of the map
--     of surfaces is not modelled, nor is `replaceChildren`, which moves nodes between holders.
--   Localization: src/localization/Localization.cpp. Words has the forms of owners, keys, locales and
--     sentences, Catalogs the catalogs that owners register. A map is an association list; the checks
--     of `registerCatalog` follow each other as in the source, and those of the entries fold the map.
--   Search.Matcher: src/ui/TextMatcher.cpp, whose loop has a round for each byte.
--   Search.CodeFinder: src/ui/components/views/CodeFinder.cpp, whose editor is its list of lines.
--     `finish` has one round more than the document has lines: each step reads one or more.
--   Scripting.Identifier: src/scripting/Identifier.cpp. Scripting.Registry:
--     src/scripting/PluginRegistry.cpp, without the settings; of the reading of a manifest, the bands.
--   Persistence: TablePrefix has the prefix of the tables of a plugin, from
--     src/persistence/PluginDatabase.cpp, Authorizer src/persistence/PluginAuthorizer.cpp, whose calls by
--     SQLite are any list, Transactions `PluginDatabase::transaction` and Migrations
--     `PluginDatabase::migrate` over a connection that is a parameter with the laws of SQLite, which runs
--     a statement under the callback of the authorizer, SchemaText
--     src/persistence/SchemaTextHelper.cpp, and Preferences src/persistence/PreferenceStore.cpp with
--     src/persistence/DatabaseExecutor.cpp, in steps of the two threads. The rows of a plugin are erased
--     in one step and its entries discarded in another.
--   Json.Reader: src/json/ObjectReader.cpp over the values of nlohmann::json, a parameter. A pointer to a
--     value of the object is its key. Reader/Kinds has the caller, a list of declared fields, and what each
--     kind of field complains of.
--   Http: Resolver is src/http/StaticFileResolver.cpp, where paths and files are the operating system's
--     and a parameter, `PathTextHelper::generic` of the platforms among it, and MimeTypes is src/http/MimeTypes.cpp.
--
-- Not modelled: drawing, which is floats and a third-party library; the operating system; SQLite, Lua
-- and the other libraries that the product calls.

pub mod Prelude
pub mod Result
pub mod Text
pub mod Terminal
pub mod Logging
pub mod Execution
pub mod Localization
pub mod Process
pub mod Scripting
pub mod Persistence
pub mod Http
pub mod Json
pub mod Search
pub mod Surface
