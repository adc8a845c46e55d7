-- ===== src/LocalCache/GetLaws.antt =====
-- localcache.go: get, where objects are addressed by their contents.
use gotst.Prelude.{
  is_empty, Option-cases, inr, ◌∙◌, sym, inl, ◌≡◌, true, false, Option, some, Text, text_eq, arith,
  length,
}
use gotst.Go.Hex.{encode_to_string, decode_string, AreBytes}
use gotst.Files.{Read-kinds, FileInfo, contents, Os, OsLaws}
use gotst.LocalCache.Data.{
  CacheProgResponse, LocalCacheIndex, LocalBuildCache, valid_cache_hex, action_path, output_path,
}
use gotst.LocalCache.Store.{stat_object, local_get, indexed_object, stock_or_miss}
use gotst.LocalCache.StoreLaws.{Sound}

module _ {D : Type 0} (os : Os D) (laws : OsLaws os) (sha256 : Text → Text)
    (marshal : LocalCacheIndex → Option Text) (unmarshal : Text → Option LocalCacheIndex)
    (bytes : (s : Text) → AreBytes (sha256 s)) (c : LocalBuildCache) where
  -- What get returns of an index.
  record Object (d : D) (res : CacheProgResponse) : Type 0 where
    pub id : Text
    pub info : FileInfo
    pub valid : valid_cache_hex id ≡ true
    pub is_path : res.disk_path ≡ output_path c id
    pub decodes : decode_string id ≡ some res.output_id
    pub stats : os.stat d (output_path c id) ≡ some info
    pub sizes : info.size ≡ res.size

  indexed_object-Object :
      (d : D) (idx : LocalCacheIndex) (res : CacheProgResponse)
      → indexed_object os sha256 marshal unmarshal d c idx ≡ some res
      → Object d res
  unfolding indexed_object stat_object
  indexed_object-Object d idx res h =
      elim (Option-cases (os.stat d (output_path c idx.output_id))) [
        | inl e ↦ absurd (ground (arith, e, h))
        | inr (info, e) ↦ elim (Option-cases (decode_string idx.output_id)) [
          | inl f ↦ absurd (ground (arith, f, h))
          | inr (o, f) ↦ record {
            id = idx.output_id;
            info = info;
            valid = ground (arith, e, f, h);
            is_path = ground (arith, e, f, h);
            decodes = ground (arith, e, f, h);
            stats = e;
            sizes = ground (arith, e, f, h);
          }
        ]
      ]

  local_get-Object :
      (action_id : Text) (d : D) (res : CacheProgResponse)
      → is_empty c.stock_dir ≡ true
      → local_get os sha256 marshal unmarshal c action_id d ≡ some res
      → res.miss ≡ false
      → Object d res
  unfolding local_get stock_or_miss
  local_get-Object action_id d res hs h hm =
      elim (Read-kinds (os.read_file d (action_path c (encode_to_string action_id)))) [
        | inl (inl e) ↦ absurd (ground (arith, e, h, hs, hm))
        | inl (inr e) ↦ absurd (ground (arith, e, h, hs, hm))
        | inr (s, e) ↦ elim (Option-cases (unmarshal s)) [
          | inl f ↦ absurd (ground (arith, e, f, h, hs, hm))
          | inr (idx, f) ↦
              elim (Option-cases (indexed_object os sha256 marshal unmarshal d c idx)) [
                | inl g ↦ absurd (ground (arith, e, f, g, h, hs, hm))
                | inr (r, g) ↦ indexed_object-Object d idx res (ground (arith, e, f, g, h, hs, hm))
              ]
        ]
      ]

  -- Without a stock cache, and where every object's file holds contents with the hash that its
  -- name says, a get that is no miss names a file that, if it can be read, has the hash and the
  -- size of the response.
  pub local_get-Sound :
      (action_id body : Text) (d : D) (res : CacheProgResponse)
      → is_empty c.stock_dir ≡ true
      → Sound os sha256 c d
      → local_get os sha256 marshal unmarshal c action_id d ≡ some res
      → res.miss ≡ false
      → os.read_file d res.disk_path ≡ contents body
      → (res.output_id ≡ sha256 body) × (res.size ≡ length body)
  unfolding local_get stock_or_miss
  local_get-Sound action_id body d res hs sound h hm hr =
      let o : Object d res = local_get-Object action_id d res hs h hm in
      let reads : os.read_file d (output_path c o.id) ≡ contents body = rw (← o.is_path) hr in
      let hash : some res.output_id ≡ some (sha256 body) =
        sym o.decodes ∙ sound o.id body o.valid reads in
      let sizes = laws.stat_reads d (output_path c o.id) body o.info reads o.stats in
      (ground (arith, hash), sym o.sizes ∙ sizes.1)
