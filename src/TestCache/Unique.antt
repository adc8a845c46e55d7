-- ===== src/TestCache/Unique.antt =====
-- testcache.go: what deduplicateDependencies keeps, and what Get gives after Put.
use gotst.Prelude.{
  ◌≡◌, refl, false, List, [], ◌∷◌, Option, none, some, arith, Text, text_eq, text_beq_iff, is_some,
  contains, ◌==◌, ==_refl, if◌then◌else◌, eqb_iff, Bool-cases, inl, inr,
}
use gotst.TestCache.Data.{
  CacheDependency, TestCacheKey, TestCacheEntry, Stored, hit, get, put, test_cache_version,
}
use gotst.TestCache.Log.{dependency_key, deduplicate, deduplicate_dependencies}

-- The last dependency with a key.
unfoldable pub last_with : Text → List CacheDependency → Option CacheDependency
last_with k [] = none
last_with k (d ∷ deps) = elim (last_with k deps) [
  | some x ↦ some x
  | none ↦ if dependency_key d == k then some d else none
]

-- No key comes twice.
abbrev pub DistinctKeys : List CacheDependency → Type 0
DistinctKeys [] = Unit
DistinctKeys (d ∷ deps) = (last_with (dependency_key d) deps ≡ none) × DistinctKeys deps

deduplicate-seen :
    (deps : List CacheDependency) (k : Text)
    → contains (deduplicate deps).0 k ≡ is_some (last_with k (deduplicate deps).1)
unfolding deduplicate contains last_with
deduplicate-seen [] k = refl
deduplicate-seen (d ∷ deps) k =
    elim (Bool-cases (contains (deduplicate deps).0 (dependency_key d))) [
      | inl old ↦ rw old (deduplicate-seen deps k)
      | inr new ↦ rw new (ground (arith, deduplicate-seen deps k))
    ]

deduplicate-DistinctKeys : (deps : List CacheDependency) → DistinctKeys (deduplicate deps).1
unfolding deduplicate
deduplicate-DistinctKeys [] = tt
deduplicate-DistinctKeys (d ∷ deps) =
    elim (Bool-cases (contains (deduplicate deps).0 (dependency_key d))) [
      | inl old ↦ rw old (deduplicate-DistinctKeys deps)
      | inr new ↦
          rw new (
            ground (arith, deduplicate-seen deps (dependency_key d)),
            deduplicate-DistinctKeys deps,
          )
    ]

deduplicate-last :
    (deps : List CacheDependency) (k : Text) → last_with k (deduplicate deps).1 ≡ last_with k deps
unfolding deduplicate last_with
deduplicate-last [] k = refl
deduplicate-last (d ∷ deps) k =
    elim (Bool-cases (contains (deduplicate deps).0 (dependency_key d))) [
      | inl old ↦ rw old (
          ground (
            arith,
            deduplicate-last deps k,
            deduplicate-seen deps (dependency_key d),
            text_beq_iff (dependency_key d) k,
          ))
      | inr new ↦ rw new (ground (arith, deduplicate-last deps k))
    ]

-- deduplicateDependencies keeps no two dependencies with one key, and of each key the last one.
pub deduplicate_dependencies-last_with :
    (deps : List CacheDependency)
    → DistinctKeys (deduplicate_dependencies deps)
      × ((k : Text) → last_with k (deduplicate_dependencies deps) ≡ last_with k deps)
unfolding deduplicate_dependencies
deduplicate_dependencies-last_with deps = (deduplicate-DistinctKeys deps, deduplicate-last deps)

-- After an entry of the current version is put, its key gives the entry, and a key with another
-- path gives what it gave before.
pub get-put :
    (id path : TestCacheKey → Text) (read : TestCacheKey → Stored) (e : TestCacheEntry)
    (key : TestCacheKey)
    → e.version ≡ test_cache_version
    → (get id false (put path read e) e.key ≡ hit e)
      × ((path key == path e.key) ≡ false
          → get id false (put path read e) key ≡ get id false read key)
unfolding get put
get-put id path read e key h = (
  ground (arith, ==_refl (path e.key), ==_refl (id e.key), eqb_iff e.version test_cache_version),
  (λ o. ground arith),
)
