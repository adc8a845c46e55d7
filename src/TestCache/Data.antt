-- ===== src/TestCache/Data.antt =====
-- testcache.go: the types, and Get. The SHA-256 of a key's text is the parameter `id`, and what a file
-- decodes to is a value of Stored.
use gotst.Prelude.{ℕ, Bool, not, ◌||◌, List, Option, Text, text_eq, ◌==◌, eqb, if◌then◌else◌}

-- `testCacheKey`, `fileState`, `fileDependency`, `cacheDependency` and `testCacheEntry`.
pub record TestCacheKey : Type 0 where
  pub binary_sha256 : Text
  pub package_path : Text
  pub test : Text
  pub working_dir : Text
  pub args : List Text

pub record FileState : Type 0 where
  pub size : ℕ
  pub mode : Text
  pub mod_time : ℕ
  pub is_dir : Bool

pub record FileDependency : Type 0 where
  pub exists : Bool
  pub error : Text
  pub stat : Option FileState
  pub lstat : Option FileState
  pub content_sha256 : Text
  pub directory_sha256 : Text
  pub fingerprint_sha256 : Text

pub record CacheDependency : Type 0 where
  pub operation : Text
  pub name : Text
  pub path : Text
  pub present : Option Bool
  pub value_sha256 : Text
  pub file : Option FileDependency

pub record TestCacheEntry : Type 0 where
  pub version : ℕ
  pub key : TestCacheKey
  pub created : ℕ
  pub passed_in : ℕ
  pub dependencies : List CacheDependency

abbrev pub test_cache_version : ℕ
test_cache_version = 2

-- What the file of a key holds.
pub data Stored : Type 0 where
  absent unreadable malformed : Stored
  entry : TestCacheEntry → Stored

pub data Lookup : Type 0 where
  hit : TestCacheEntry → Lookup
  miss failed : Lookup

-- `diskTestCache.Get`; `read` is the file at the path of a key.
unfoldable pub get : (TestCacheKey → Text) → Bool → (TestCacheKey → Stored) → TestCacheKey → Lookup
get id cancelled read key = if cancelled then failed else elim (read key) [
  | absent ↦ miss
  | unreadable ↦ failed
  | malformed ↦ failed
  | entry e ↦
      if not (eqb e.version test_cache_version) || not (id e.key == id key) then failed else hit e
]

-- `diskTestCache.Put` where writing succeeds: the file of the entry's key is replaced.
unfoldable pub put :
    (TestCacheKey → Text) → (TestCacheKey → Stored) → TestCacheEntry → TestCacheKey → Stored
put path read e key = if path key == path e.key then entry e else read key
