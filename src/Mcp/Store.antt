-- ===== src/Mcp/Store.antt =====
-- crates/bitrouter-sdk/src/mcp/caching_executor.rs: `ServerCache`, the cache of one server. The hash
-- map is an association list; times and durations are in milliseconds.
pub mod Linked
pub mod Bounded
use bitrouter_ethglobal.Base.{
  ℕ, String, Option, none, some, Bool, true, false, not, List, [], ◌∷◌, ◌++◌, ◌-◌, ◌&&◌, ◌==◌, ltb,
  leb, length, retain, is_some, str_eq, if◌then◌else◌,
}

pub record CacheKey : Type 0 where
  pub server_name : String
  pub method : String
  pub params_hash : ℕ

-- The derived equality.
abbrev pub key_eq : CacheKey → CacheKey → Bool
key_eq a b =
    str_eq a.server_name b.server_name
    && (str_eq a.method b.method && (a.params_hash == b.params_hash))

pub record CacheEntry (X : Type 0) : Type 0 where
  pub value : X
  pub inserted_at : ℕ
  pub ttl : ℕ

pub record ServerCache (X : Type 0) : Type 0 where
  pub entries : List (CacheKey × CacheEntry X)
  pub order : List CacheKey
  pub max_entries : ℕ

-- A key that has no entry joins the end of the order.
abbrev pub push_order : Bool → CacheKey → List CacheKey → List CacheKey
push_order present k ks = if present then ks else ks ++ (k ∷ [])

module _ {X : Type 0} where
  -- `Instant::duration_since` stops at zero.
  abbrev pub is_fresh : ℕ → CacheEntry X → Bool
  is_fresh now e = ltb (now - e.inserted_at) e.ttl

  -- `HashMap::get`, `insert` and `remove` on the entries.
  abbrev pub get_entry : CacheKey → List (CacheKey × CacheEntry X) → Option (CacheEntry X)
  get_entry k [] = none
  get_entry k ((j, e) ∷ es) = if key_eq j k then some e else get_entry k es

  abbrev pub put_entry :
      CacheKey → CacheEntry X → List (CacheKey × CacheEntry X) → List (CacheKey × CacheEntry X)
  put_entry k e [] = (k, e) ∷ []
  put_entry k e ((j, d) ∷ es) = if key_eq j k then (k, e) ∷ es else (j, d) ∷ put_entry k e es

  abbrev pub retain_keys :
      (CacheKey → Bool) → List (CacheKey × CacheEntry X) → List (CacheKey × CacheEntry X)
  retain_keys p = retain (λ item. p item.0)

  abbrev pub remove_entry :
      CacheKey → List (CacheKey × CacheEntry X) → List (CacheKey × CacheEntry X)
  remove_entry k = retain_keys (λ j. not (key_eq j k))

  unfoldable pub new : ℕ → ServerCache X
  new max_entries = record { entries = []; order = []; max_entries = max_entries }

  -- `filter(is_fresh)` and `map(value)` on what the map has.
  abbrev pub fresh_value : ℕ → Option (CacheEntry X) → Option X
  fresh_value now none = none
  fresh_value now (some e) = if is_fresh now e then some e.value else none

  unfoldable pub get : CacheKey → ℕ → ServerCache X → Option X
  get k now c = fresh_value now (get_entry k c.entries)

  -- The while loop of `insert`, by recursion on the order, whose front each round takes.
  unfoldable pub trim : ℕ → List CacheKey → List (CacheKey × CacheEntry X) → ServerCache X
  trim m [] es = record { entries = es; order = []; max_entries = m }
  trim m (k ∷ ks) es =
      let rest = trim m ks (remove_entry k es) in
      if leb (length es) m then record { entries = es; order = k ∷ ks; max_entries = m } else rest

  unfoldable pub insert : CacheKey → CacheEntry X → ServerCache X → ServerCache X
  unfolding trim
  insert k e c =
      trim c.max_entries (push_order (is_some (get_entry k c.entries)) k c.order)
        (put_entry k e c.entries)

  unfoldable pub evict_method : String → ServerCache X → ServerCache X
  evict_method method c = record c {
    entries = retain_keys (λ k. not (str_eq k.method method)) c.entries;
    order = retain (λ k. not (str_eq k.method method)) c.order;
  }

  unfoldable pub clear : ServerCache X → ServerCache X
  clear c = record c { entries = []; order = [] }
