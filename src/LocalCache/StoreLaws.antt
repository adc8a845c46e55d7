-- ===== src/LocalCache/StoreLaws.antt =====
-- localcache.go: put, with objects addressed by their contents.
use gotst.Prelude.{
  Option-cases, inr, ap, ◌∙◌, sym, inl, subst, Bool-cases, ℕ, ◌≡◌, true, false, [], ◌∷◌, ◌++◌,
  Option, some, Text, text_eq, ◌==◌, arith, length,
}
use gotst.Go.Hex.{decode_string-encode_to_string, encode_to_string, decode_string, AreBytes}
use gotst.Files.{contents-injective, FileInfo, continue-state, contents, Os, OsLaws}
use gotst.LocalCache.Data.{
  output_dir, action_dir, LocalCacheIndex, LocalBuildCache, valid_cache_hex, action_path,
  output_path,
}
use gotst.LocalCache.Store.{put_files, put_refused, write_cache_file, local_put}
use gotst.LocalCache.WriteLaws.{Written, write_cache_file-Written}
use gotst.LocalCache.PathLaws.{
  output_path-injective, action_path-kept, output_path-kept, action_path-output_path,
}

-- Every object's file holds contents with the hash that its name says.
abbrev pub Sound : {D : Type 0} → Os D → (Text → Text) → LocalBuildCache → D → Type 0
Sound os sha256 c d =
    (id body : Text)
    → valid_cache_hex id ≡ true
    → os.read_file d (output_path c id) ≡ contents body
    → decode_string id ≡ some (sha256 body)

module _ {D : Type 0} (os : Os D) (laws : OsLaws os) (sha256 : Text → Text)
    (marshal : LocalCacheIndex → Option Text) (unmarshal : Text → Option LocalCacheIndex)
    (bytes : (s : Text) → AreBytes (sha256 s)) (c : LocalBuildCache) where
  own_object :
      (output_id body s : Text) (d : D)
      → valid_cache_hex (encode_to_string output_id) ≡ true
      → sha256 body ≡ output_id
      → Sound os sha256 c d
      → os.read_file
          (write_cache_file os
            (output_dir c (encode_to_string output_id))
            (output_path c (encode_to_string output_id))
            body
            0o600
            d).0
          (output_path c (encode_to_string output_id))
        ≡ contents s
      → decode_string (encode_to_string output_id) ≡ some (sha256 s)
  own_object output_id body s d valid hash sound h =
      let own = encode_to_string output_id in
      let r = write_cache_file os (output_dir c own) (output_path c own) body 0o600 d in
      let w : Written os (output_path c own) body d r =
        write_cache_file-Written os _ body laws (output_dir c own) 0o600 d
          (output_path-kept c own valid) in
      elim (Option-cases r.1) [
        | inl e ↦ sound own s valid (sym (w.on_failure e) ∙ h)
        | inr (u, e) ↦
            let same : body ≡ s = contents-injective body s (sym (w.on_success e) ∙ h) in
            decode_string-encode_to_string output_id (subst AreBytes hash (bytes body))
            ∙ ap some (sym hash ∙ ap sha256 same)
      ]

  Sound-write_object :
      (output_id body : Text) (d : D)
      → valid_cache_hex (encode_to_string output_id) ≡ true
      → sha256 body ≡ output_id
      → Sound os sha256 c d
      → Sound os sha256 c
          (write_cache_file os
            (output_dir c (encode_to_string output_id))
            (output_path c (encode_to_string output_id))
            body
            0o600
            d).0
  Sound-write_object output_id body d valid hash sound id s hid hread =
      let own = encode_to_string output_id in
      let w : Written os (output_path c own) body d _ =
        write_cache_file-Written os _ body laws (output_dir c own) 0o600 d
          (output_path-kept c own valid) in
      elim (Bool-cases (output_path c own == output_path c id)) [
        | inr e ↦ sound id s hid (sym (w.others _ e (output_path-kept c id hid)) ∙ hread)
        | inl e ↦
            let same : own ≡ id =
              output_path-injective c own id valid hid ((text_eq.beq_iff _ _).0 e) in
            subst
              (λ x.
                os.read_file
                    (write_cache_file os (output_dir c own) (output_path c own) body 0o600 d).0
                    (output_path c x)
                  ≡ contents s
                → decode_string x ≡ some (sha256 s))
              same (own_object output_id body s d valid hash sound) hread
      ]

  Sound-write_index :
      (action idx : Text) (d : D)
      → valid_cache_hex action ≡ true
      → Sound os sha256 c d
      → Sound os sha256 c
          (write_cache_file os (action_dir c action) (action_path c action) idx 0o600 d).0
  Sound-write_index action idx d valid sound id s hid hread =
      let w : Written os (action_path c action) idx d _ =
        write_cache_file-Written os _ idx laws (action_dir c action) 0o600 d
          (action_path-kept c action valid) in
      sound id s hid (
        sym (w.others _ (action_path-output_path c action id valid hid) (output_path-kept c id hid))
        ∙ hread)

  pub accepted :
      (action_id output_id : Text) (size : ℕ) (body : Text)
      → put_refused os sha256 marshal unmarshal action_id output_id size body ≡ false
      → (valid_cache_hex (encode_to_string action_id) ≡ true)
        × (valid_cache_hex (encode_to_string output_id) ≡ true)
        × (sha256 body ≡ output_id)
        × (length body ≡ size)
  unfolding put_refused
  accepted action_id output_id size body h = ground (arith, text_eq.beq_iff (sha256 body) output_id)

  put_files-Sound :
      (action_id output_id : Text) (size : ℕ) (body : Text) (d : D)
      → valid_cache_hex (encode_to_string action_id) ≡ true
      → Sound os sha256 c
          (write_cache_file os
            (output_dir c (encode_to_string output_id))
            (output_path c (encode_to_string output_id))
            body
            0o600
            d).0
      → Sound os sha256 c
          (put_files os sha256 marshal unmarshal c
            (encode_to_string action_id)
            (encode_to_string output_id)
            size
            body
            d).0
  unfolding put_files
  put_files-Sound action_id output_id size body d valid stored =
      let own = encode_to_string output_id in
      let act = encode_to_string action_id in
      let r = write_cache_file os (output_dir c own) (output_path c own) body 0o600 d in
      let stored_index : (idx : Text)
          → Sound os sha256 c
              (write_cache_file os (action_dir c act) (action_path c act) idx 0o600 r.0).0 =
        λ idx. Sound-write_index act idx r.0 valid stored in
      continue-state {A = Unit} {B = Text} (Sound os sha256 c) r _ (λ h. stored)
        λ u hu.
          continue-state {A = FileInfo} {B = Text} (Sound os sha256 c)
            (r.0, os.stat r.0 (output_path c own)) _ (λ h. stored)
            λ info hi.
              continue-state {A = Text} {B = Text} (Sound os sha256 c)
                (
                  r.0,
                  marshal (record {
                    version = 1;
                    output_id = own;
                    size = size;
                    time_nanos = info.mod_time;
                  }),
                )
                _ (λ h. stored)
                λ idx hidx.
                  continue-state {A = Unit} {B = Text} (Sound os sha256 c)
                    (write_cache_file os (action_dir c act) (action_path c act) (idx ++ 10 ∷ [])
                      0o600 r.0)
                    _ (λ h. stored_index (idx ++ 10 ∷ [])) λ v hv. stored_index (idx ++ 10 ∷ [])

  -- On a disk that behaves as package os says, any put, also one that fails, keeps it true that
  -- every object's file holds contents with the hash that its name says.
  pub local_put-Sound :
      (action_id output_id : Text) (size : ℕ) (body : Text) (d : D)
      → Sound os sha256 c d
      → Sound os sha256 c
          (local_put os sha256 marshal unmarshal c action_id output_id size body d).0
  unfolding local_put
  local_put-Sound action_id output_id size body d sound =
      elim (Bool-cases (put_refused os sha256 marshal unmarshal action_id output_id size body)) [
        | inl e ↦ rw (e) sound
        | inr e ↦
            let g = accepted action_id output_id size body e in
            rw (e) (
              put_files-Sound action_id output_id size body d g.0
                (Sound-write_object output_id body d g.1 g.2 sound))
      ]
