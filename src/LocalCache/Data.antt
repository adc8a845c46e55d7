-- ===== src/LocalCache/Data.antt =====
-- localcache.go: the index and its paths, cacheprog.go: the requests and responses of the protocol.
use gotst.Prelude.{
  ℕ, Bool, true, false, ◌&&◌, List, Option, none, Text, text, ◌++◌, ◌∷◌, [], take, length, eqb,
  is_some,
}
use gotst.Go.Hex.{decode_string}

-- `cacheProgCommand`; any other command is a text.
pub data CacheProgCommand : Type 0 where
  command_get command_put command_close : CacheProgCommand
  command_other : Text → CacheProgCommand

-- `cacheProgRequest`, with the body that follows a put.
pub record CacheProgRequest : Type 0 where
  pub id : ℕ
  pub command : CacheProgCommand
  pub action_id : Text
  pub output_id : Text
  pub object_id : Text
  pub body_size : ℕ

-- `cacheProgResponse`; an absent error or path is empty, and an absent time is `none`.
pub record CacheProgResponse : Type 0 where
  pub id : ℕ
  pub err : Text
  pub known_commands : List CacheProgCommand
  pub miss : Bool
  pub output_id : Text
  pub object_id : Text
  pub size : ℕ
  pub time : Option ℕ
  pub disk_path : Text

abbrev pub empty_response : CacheProgResponse
empty_response = record {
  id = 0;
  err = [];
  known_commands = [];
  miss = false;
  output_id = [];
  object_id = [];
  size = 0;
  time = none;
  disk_path = [];
}

abbrev pub miss_response : CacheProgResponse
miss_response = record empty_response { miss = true }

-- `localCacheIndex`
pub record LocalCacheIndex : Type 0 where
  pub version : ℕ
  pub output_id : Text
  pub size : ℕ
  pub time_nanos : ℕ

-- `localBuildCache`; `dir` is a clean path, and so is `stock_dir`, which is empty where there is none.
pub record LocalBuildCache : Type 0 where
  pub dir : Text
  pub stock_dir : Text

-- `validCacheHex`
unfoldable pub valid_cache_hex : Text → Bool
valid_cache_hex s = eqb (length s) 64 && is_some (decode_string s)

-- `actionPath` and `outputPath`
unfoldable pub action_dir : LocalBuildCache → Text → Text
action_dir c id = c.dir ++ text "/action/" ++ take 2 id

unfoldable pub action_path : LocalBuildCache → Text → Text
unfolding action_dir
action_path c id = action_dir c id ++ b'/' ∷ (id ++ text ".json")

unfoldable pub output_dir : LocalBuildCache → Text → Text
output_dir c id = c.dir ++ text "/object/" ++ take 2 id

unfoldable pub output_path : LocalBuildCache → Text → Text
unfolding output_dir
output_path c id = output_dir c id ++ b'/' ∷ id
