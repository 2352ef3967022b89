-- ===== src/Dict.antt =====
-- Python's `dict` as the list of its items, in the order of insertion: a write to a key that is
-- there keeps its place, a new key goes to the end. The laws stand in the children.
mod Defs
mod Laws
unfoldable pub use Defs.{Dict, get, put, pop, keys, contains, add_key, drop_key, get_or}
pub use Laws.*
