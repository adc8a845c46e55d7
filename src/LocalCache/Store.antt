-- ===== src/LocalCache/Store.antt =====
-- localcache.go: writeCacheFile, get, put and readStockGoCache. The hash, the JSON of an index and the
-- operations on the disk are parameters.
use gotst.Prelude.{
  ℕ, Bool, false, not, ◌&&◌, ◌||◌, List, [], ◌∷◌, ◌++◌, Option, none, some, Text, text, text_eq,
  ◌==◌, length, eqb, take, if◌then◌else◌, is_empty,
}
use gotst.Go.Hex.{encode_to_string, decode_string}
use gotst.Go.Strings.{has_prefix, fields, parse_natural}
use gotst.Files.{◌>>◌, missing, unreadable, contents, Os, Disk, ◌>>=◌, checked}
use gotst.LocalCache.Data.{
  CacheProgResponse, empty_response, miss_response, LocalCacheIndex, LocalBuildCache,
  valid_cache_hex, action_dir, action_path, output_dir, output_path,
}

abbrev pub temp_start : Text
temp_start = text ".gotst-cache-"

-- Whether the file at the path is there and has the contents.
abbrev pub holds : {D : Type 0} → Os D → D → Text → Text → Bool
holds os d path bytes = elim (os.read_file d path) [
  | missing ↦ false
  | unreadable ↦ false
  | contents old ↦ old == bytes
]

module _ {D : Type 0} (os : Os D) where
  -- The temporary file `tmp` gets its contents and is renamed.
  unfoldable pub install : Text → Text → Text → ℕ → Disk D (Unit {0})
  install tmp path bytes mode = do
    checked (λ d. os.chmod d tmp mode)
    checked (λ d. os.write d tmp bytes)
    checked (λ d. os.close d tmp)
    λ d.
        let r = os.rename d tmp path in
        (r.0, if r.1 || holds os r.0 path bytes then some tt else none)

  -- The deferred function.
  unfoldable pub clean_up : Text → Disk D (Unit {0}) → Disk D (Unit {0})
  clean_up tmp body d =
      let r = body d in
      let closed = (os.close r.0 tmp).0 in
      elim r.1 [ some u ↦ (closed, some u) | none ↦ ((os.remove closed tmp).0, none) ]

  -- `writeCacheFile`, whose caller gives the directory of the path
  unfoldable pub write_cache_file : Text → Text → Text → ℕ → Disk D (Unit {0})
  unfolding install clean_up
  write_cache_file dir path bytes mode d =
      if holds os d path bytes
      then (d, some tt)
      else (do
        checked (λ e. os.mkdir_all e dir)
        tmp ← λ e. os.create_temp e dir temp_start
        clean_up tmp (install tmp path bytes mode))
          d

  module _ (sha256 : Text → Text) (marshal : LocalCacheIndex → Option Text)
      (unmarshal : Text → Option LocalCacheIndex) where
    -- The guards of `localBuildCache.put`
    unfoldable pub put_refused : Text → Text → ℕ → Text → Bool
    put_refused action_id output_id size body =
        not (valid_cache_hex (encode_to_string action_id))
        || not (valid_cache_hex (encode_to_string output_id))
        || not (eqb (length output_id) 32)
        || not (eqb (length body) size)
        || not (sha256 body == output_id)

    -- The object, then the index that names it.
    unfoldable pub put_files : LocalBuildCache → Text → Text → ℕ → Text → Disk D Text
    unfolding write_cache_file
    put_files c action_hex output_hex size body = do
      write_cache_file (output_dir c output_hex) (output_path c output_hex) body 0o600
      info ← λ d. (d, os.stat d (output_path c output_hex))
      idx ← λ d. (
        d,
        marshal (record {
          version = 1;
          output_id = output_hex;
          size = size;
          time_nanos = info.mod_time;
        }),
      )
      write_cache_file (action_dir c action_hex) (action_path c action_hex) (idx ++ 10 ∷ []) 0o600
      λ d. (d, some (output_path c output_hex))

    -- `localBuildCache.put`; `none` is an error.
    unfoldable pub local_put : LocalBuildCache → Text → Text → ℕ → Text → Disk D Text
    unfolding put_files put_refused
    local_put c action_id output_id size body d =
        if put_refused action_id output_id size body
        then (d, none)
        else put_files c (encode_to_string action_id) (encode_to_string output_id) size body d

    -- The file of an object, if it is a regular one of the size.
    unfoldable pub stat_object : D → Text → ℕ → Bool
    stat_object d path size = elim (os.stat d path) [
      | none ↦ false
      | some i ↦ i.regular && eqb i.size size
    ]

    -- `readStockGoCache`
    unfoldable pub stock_object : D → Text → Text → Text → ℕ → ℕ → Option CacheProgResponse
    unfolding stat_object
    stock_object d dir action_hex output_hex size nanos =
        let path = dir ++ text "/" ++ take 2 output_hex ++ text "/" ++ output_hex ++ text "-d" in
        if not (stat_object d path size) then none else elim (decode_string output_hex) [
          | none ↦ none
          | some output_id ↦ some (record empty_response {
            output_id = output_id;
            size = size;
            time = some nanos;
            disk_path = path;
          })
        ]

    unfoldable pub stock_fields : D → Text → Text → List Text → Option CacheProgResponse
    unfolding stock_object
    stock_fields d dir action_hex (version ∷ action ∷ output_hex ∷ size ∷ nanos ∷ []) =
        if not (version == text "v1")
          || not (action == action_hex)
          || not (valid_cache_hex output_hex)
        then none
        else elim (parse_natural size) [
          | none ↦ none
          | some n ↦ elim (parse_natural nanos) [
            | none ↦ none
            | some t ↦ stock_object d dir action_hex output_hex n t
          ]
        ]
    stock_fields d dir action_hex _ = none

    unfoldable pub read_stock_go_cache : D → Text → Text → Option CacheProgResponse
    unfolding stock_fields
    read_stock_go_cache d dir action_hex =
        if not (valid_cache_hex action_hex) || not (has_prefix dir (text "/"))
        then none
        else elim (os.read_file d
            (dir ++ text "/" ++ take 2 action_hex ++ text "/" ++ action_hex ++ text "-a")) [
              | missing ↦ none
              | unreadable ↦ none
              | contents bytes ↦ stock_fields d dir action_hex (fields bytes)
            ]

    -- What the index gives in `localBuildCache.get`.
    unfoldable pub indexed_object : D → LocalBuildCache → LocalCacheIndex → Option CacheProgResponse
    unfolding stat_object
    indexed_object d c idx =
        let path = output_path c idx.output_id in
        if not (eqb idx.version 1)
          || not (valid_cache_hex idx.output_id)
          || not (stat_object d path idx.size)
        then none
        else elim (decode_string idx.output_id) [
          | none ↦ none
          | some output_id ↦ some (record empty_response {
            output_id = output_id;
            size = idx.size;
            time = some idx.time_nanos;
            disk_path = path;
          })
        ]

    unfoldable pub stock_or_miss : D → LocalBuildCache → Text → CacheProgResponse
    unfolding read_stock_go_cache
    stock_or_miss d c action_hex =
        if is_empty c.stock_dir
        then miss_response
        else elim (read_stock_go_cache d c.stock_dir action_hex) [
          | none ↦ miss_response
          | some res ↦ res
        ]

    -- `localBuildCache.get`; `none` is an error.
    unfoldable pub local_get : LocalBuildCache → Text → D → Option CacheProgResponse
    unfolding indexed_object stock_or_miss
    local_get c action_id d =
        let action_hex = encode_to_string action_id in
        if not (valid_cache_hex action_hex)
        then some miss_response
        else elim (os.read_file d (action_path c action_hex)) [
          | missing ↦ some (stock_or_miss d c action_hex)
          | unreadable ↦ none
          | contents bytes ↦ elim (unmarshal bytes) [
            | none ↦ some (stock_or_miss d c action_hex)
            | some idx ↦ elim (indexed_object d c idx) [
              | none ↦ some (stock_or_miss d c action_hex)
              | some res ↦ some res
            ]
          ]
        ]
