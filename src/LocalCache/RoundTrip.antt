-- ===== src/LocalCache/RoundTrip.antt =====
-- localcache.go: get after put.
use gotst.Prelude.{
  inr, inl, eqb, Bool-cases, ℕ, ◌≡◌, subst, ◌∙◌, true, false, [], ◌∷◌, ◌++◌, Option, none, some,
  Text, text_eq, arith,
}
use gotst.Go.Hex.{encode_to_string, decode_string, AreBytes, decode_string-encode_to_string}
use gotst.Files.{contents, FileInfo, Os, OsLaws, continue-eq-some}
use gotst.LocalCache.Data.{
  empty_response, LocalCacheIndex, LocalBuildCache, valid_cache_hex, action_dir, action_path,
  output_dir, output_path,
}
use gotst.LocalCache.Store.{
  write_cache_file, put_files, put_refused, local_put, local_get, indexed_object, stat_object,
}
use gotst.LocalCache.WriteLaws.{Written, write_cache_file-Written}
use gotst.LocalCache.PathLaws.{action_path-kept, output_path-kept, action_path-output_path}
use gotst.LocalCache.StoreLaws.{accepted}

some-path : (p q : Text) → some p ≡ some q → q ≡ p
some-path p q h = ground arith

stopped : (p : Text) → none ≡ some p → ⊥
stopped p h = ground arith

-- The parts that get reads.
record Stored {D : Type 0} (os : Os D) (c : LocalBuildCache) (action output : Text) (size : ℕ)
    (body path : Text) (marshal : LocalCacheIndex → Option Text) (d : D) : Type 0 where
  pub time_nanos : ℕ
  pub index : Text
  pub marshalled :
      marshal (record { version = 1; output_id = output; size = size; time_nanos = time_nanos })
      ≡ some index
  pub reads_index : os.read_file d (action_path c action) ≡ contents (index ++ 10 ∷ [])
  pub reads_object : os.read_file d (output_path c output) ≡ contents body
  pub is_path : path ≡ output_path c output

module _ {D : Type 0} (os : Os D) (laws : OsLaws os) (sha256 : Text → Text)
    (marshal : LocalCacheIndex → Option Text) (unmarshal : Text → Option LocalCacheIndex)
    (c : LocalBuildCache) where
  put_files-Stored :
      (action output : Text) (size : ℕ) (body path : Text) (d : D)
      → valid_cache_hex action ≡ true
      → valid_cache_hex output ≡ true
      → (put_files os sha256 marshal unmarshal c action output size body d).1 ≡ some path
      → Stored os c action output size body path marshal
          (put_files os sha256 marshal unmarshal c action output size body d).0
  unfolding put_files
  put_files-Stored action output size body path d ha ho h =
      let r = write_cache_file os (output_dir c output) (output_path c output) body 0o600 d in
      let (u, hu, eu, gu) = continue-eq-some {A = Unit} {B = Text} r _ h in
      let (info, hi, ei, gi) =
        continue-eq-some {A = FileInfo} {B = Text} (r.0, os.stat r.0 (output_path c output)) _ gu in
      let idx_of =
        marshal
          (record { version = 1; output_id = output; size = size; time_nanos = info.mod_time }) in
      let (idx, hx, ex, gx) = continue-eq-some {A = Text} {B = Text} (r.0, idx_of) _ gi in
      let q =
        write_cache_file os (action_dir c action) (action_path c action) (idx ++ 10 ∷ []) 0o600
          r.0 in
      let (v, hv, ev, gv) = continue-eq-some {A = Unit} {B = Text} q _ gx in
      let wr : Written os (output_path c output) body d r =
        write_cache_file-Written os _ body laws (output_dir c output) 0o600 d
          (output_path-kept c output ho) in
      let wq : Written os (action_path c action) (idx ++ 10 ∷ []) r.0 q =
        write_cache_file-Written os _ _ laws (action_dir c action) 0o600 r.0
          (action_path-kept c action ha) in
      let ends : put_files os sha256 marshal unmarshal c action output size body d
          ≡ (q.0, some (output_path c output)) =
        eu ∙ ei ∙ ex ∙ ev in
      rw (ends) (record {
        time_nanos = info.mod_time;
        index = idx;
        marshalled = hx;
        reads_index = wq.on_success hv;
        reads_object =
            wq.others _ (action_path-output_path c action output ha ho)
              (output_path-kept c output ho)
            ∙ wr.on_success hu;
        is_path = some-path (output_path c output) path gv;
      })

  module _ (bytes : (s : Text) → AreBytes (sha256 s))
      (json : (i : LocalCacheIndex) (t : Text)
        → marshal i ≡ some t
        → unmarshal (t ++ 10 ∷ []) ≡ some i) where
    local_get-Stored :
        (action_id output_id : Text) (size : ℕ) (body path : Text) (d : D)
        → put_refused os sha256 marshal unmarshal action_id output_id size body ≡ false
        → (s : Stored os c
            (encode_to_string action_id)
            (encode_to_string output_id)
            size
            body
            path
            marshal
            d)
        → local_get os sha256 marshal unmarshal c action_id d
          ≡ some (record empty_response {
            output_id = output_id;
            size = size;
            time = some s.time_nanos;
            disk_path = path;
          })
    unfolding local_get indexed_object stat_object
    local_get-Stored action_id output_id size body path d e s =
        let g = accepted os laws sha256 marshal unmarshal bytes c action_id output_id size body e in
        let same : eqb size size ≡ true = ground arith in
        let (info, hi) =
          laws.stat_finds d (output_path c (encode_to_string output_id)) body s.reads_object in
        let sizes =
          laws.stat_reads d (output_path c (encode_to_string output_id)) body info s.reads_object
            hi in
        let decoded : decode_string (encode_to_string output_id) ≡ some output_id =
          decode_string-encode_to_string output_id (subst AreBytes g.2 (bytes body)) in
        rw (
          g.0,
          s.reads_index,
          json _ _ s.marshalled,
          g.1,
          hi,
          sizes.0,
          sizes.1,
          g.3,
          decoded,
          s.is_path,
          same,
        )

    -- On a disk that behaves as package os says, with a hash of bytes and an index that can be
    -- read back, after a put that succeeds its path holds the body, and a get of the action
    -- returns the output, its size and the path.
    pub local_get-local_put :
        (action_id output_id : Text) (size : ℕ) (body path : Text) (d : D)
        → (local_put os sha256 marshal unmarshal c action_id output_id size body d).1 ≡ some path
        → (t : ℕ) × (os.read_file
              (local_put os sha256 marshal unmarshal c action_id output_id size body d).0
              path
            ≡ contents body)
          × (local_get os sha256 marshal unmarshal c action_id
                (local_put os sha256 marshal unmarshal c action_id output_id size body d).0
              ≡ some (record empty_response {
                output_id = output_id;
                size = size;
                time = some t;
                disk_path = path;
              }))
    unfolding local_put
    local_get-local_put action_id output_id size body path d h =
        elim (Bool-cases (put_refused os sha256 marshal unmarshal action_id output_id size body)) [
          | inl e ↦ absurd (stopped path (rw e at h))
          | inr e ↦
              let g =
                accepted os laws sha256 marshal unmarshal bytes c action_id output_id size body e in
              let r =
                put_files os sha256 marshal unmarshal c (encode_to_string action_id)
                  (encode_to_string output_id) size body d in
              let s : Stored os c (encode_to_string action_id) (encode_to_string output_id) size
                  body path marshal r.0 =
                put_files-Stored (encode_to_string action_id) (encode_to_string output_id) size body
                  path d g.0 g.1 (rw e at h) in
              rw (e) (
                s.time_nanos,
                rw (s.is_path) s.reads_object,
                local_get-Stored action_id output_id size body path r.0 e s,
              )
        ]
