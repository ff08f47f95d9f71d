-- ===== src/Base/Regex.antt =====
-- Regular expressions as in the source's literals, anchored at both ends. A match is found by
-- derivatives; `Matches` says what it means, with no search in it.
mod Defs
mod Correct
unfoldable pub use Defs.*
pub use Correct.*
pub mod Inversion
