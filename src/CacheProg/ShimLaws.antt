-- ===== src/CacheProg/ShimLaws.antt =====
-- cacheprog.go: the executables that the shim serves.
use gotst.Prelude.{
  is_empty, Option-cases, ◌||◌, ◌&&◌, some-injective, if-cases, ◌∙◌, sym, ap, Bool-cases, ℕ, ◌≡◌,
  refl, Bool, true, false, Option, none, some, Text, text_eq, ◌==◌, arith, inl, inr, ◌⊎◌, not,
}
use gotst.Go.Strings.{has_prefix}
use gotst.Go.Paths.{after_last_slash-append, after_last_slash-append, after_last_slash}
use gotst.Go.Hex.{
  encode_to_string, AreBytes, encode_to_string-is_some, encode_to_string-injective,
  decode_string-no_dot, decode_string-has_slash,
}
use gotst.Files.{continue, Read-kinds, contents-injective, contents, Os, OsLaws}
use gotst.LocalCache.{command_get, CacheProgRequest, CacheProgResponse, miss_response}
use gotst.CacheProg.Executables.{
  runs, executable_temp, copy_executable, has_hash, matches, exec_target, materialize_executable,
  looks_like_executable,
}
use gotst.CacheProg.Shim.{
  report_lookup, with_output, forward, note_executable, record_miss, CacheShim, Forwarded,
  serve_executable, forward_get,
}
use gotst.CacheProg.CopyLaws.{Copied, copy_executable-Copied}

module _ {D : Type 0} (os : Os D) (laws : OsLaws os) (sha256 : Text → Text)
    (build_id : D → Text → Option Text) (clean : Text → Text) (windows direct : Bool)
    (exec_dir : Text) where
  abbrev target : Text → Text
  target o = exec_target os sha256 build_id windows direct exec_dir o

  -- Every file of the directory of executables has the hash that its name says.
  abbrev pub ExecSound : D → Type 0
  ExecSound d = (o s : Text) → AreBytes o → os.read_file d (target o) ≡ contents s → sha256 s ≡ o

  target-last : (o : Text) → AreBytes o → after_last_slash (target o) ≡ encode_to_string o
  unfolding exec_target
  target-last o h =
      after_last_slash-append exec_dir (encode_to_string o)
        (decode_string-has_slash (encode_to_string o) (encode_to_string-is_some o h))

  target-kept :
      (o : Text) → AreBytes o → has_prefix (after_last_slash (target o)) executable_temp ≡ false
  target-kept o h =
      rw (target-last o h)
        (decode_string-no_dot (encode_to_string o) _ (encode_to_string-is_some o h))

  target-injective : (o p : Text) → AreBytes o → AreBytes p → target o ≡ target p → o ≡ p
  target-injective o p ho hp e =
      encode_to_string-injective o p ho hp
        (sym (target-last o ho) ∙ ap after_last_slash e ∙ target-last p hp)

  has_hash-contents :
      (d : D) (path o : Text)
      → has_hash os sha256 d path o ≡ true
      → (s : Text) × (os.read_file d path ≡ contents s) × (sha256 s ≡ o)
  unfolding has_hash
  has_hash-contents d path o h = elim (Read-kinds (os.read_file d path)) [
    | inl (inl e) ↦ absurd (ground (arith, e, h))
    | inl (inr e) ↦ absurd (ground (arith, e, h))
    | inr (s, e) ↦ (s, e, (text_eq.beq_iff (sha256 s) o).0 (ground (arith, e, h)))
  ]

  same-hash : (s t o : Text) → contents s ≡ contents t → sha256 s ≡ o → sha256 t ≡ o
  same-hash s t o h e = sym (ap sha256 (contents-injective s t h)) ∙ e

  Copied-target :
      (o s : Text) (d e : D)
      → AreBytes o
      → sha256 s ≡ o
      → ExecSound d
      → Copied os laws (target o) s d e
      → (t : Text) → os.read_file e (target o) ≡ contents t
      → sha256 t ≡ o
  Copied-target o s d e ho hash sound c t ht = elim c.destination [
    | inl h ↦ same-hash s t o (sym h ∙ ht) hash
    | inr h ↦ sound o t ho (sym h ∙ ht)
  ]

  Copied-ExecSound :
      (o s : Text) (d e : D)
      → AreBytes o
      → sha256 s ≡ o
      → ExecSound d
      → Copied os laws (target o) s d e
      → ExecSound e
  Copied-ExecSound o s d e ho hash sound c p t hp ht = elim (Bool-cases (target o == target p)) [
    | inr ne ↦ sound p t hp (sym (c.others (target p) ne (target-kept p hp)) ∙ ht)
    | inl eq ↦
        let same : o ≡ p = target-injective o p ho hp ((text_eq.beq_iff _ _).0 eq) in
        Copied-target o s d e ho hash sound c t (rw same ht) ∙ same
  ]

  -- The file that a path names, if it can be read, has the hash `o`.
  abbrev HasHash : D → Text → Text → Type 0
  HasHash d o path = (s : Text) → os.read_file d path ≡ contents s → sha256 s ≡ o

  record Served (o : Text) (r : D × Option Text) : Type 0 where
    pub sound : ExecSound r.0
    pub hash : (path : Text) → r.1 ≡ some path → HasHash r.0 o path

  Served-continue :
      (o : Text) (r : D × Option (Unit {0}))
      → ExecSound r.0
      → AreBytes o
      → Served o (continue r (λ u e. (e, some (target o))))
  Served-continue o (e, none) sound ho = record {
    sound = sound;
    hash = λ p h s h'. absurd (ground (arith, h));
  }
  Served-continue o (e, some u) sound ho = record {
    sound = sound;
    hash = λ p h s h'. sound o s ho (rw (some-injective (target o) p h) h');
  }

  matches-contents :
      (action_id o path : Text) (d : D)
      → matches os sha256 build_id windows direct exec_dir d action_id o path ≡ true
      → (s : Text) × (os.read_file d path ≡ contents s) × (sha256 s ≡ o)
  unfolding matches
  matches-contents action_id o path d h = has_hash-contents d path o (ground (arith, h))

  copied-Served :
      (o path s : Text) (d : D)
      → AreBytes o
      → os.read_file d path ≡ contents s
      → sha256 s ≡ o
      → ExecSound d
      → Served o
          (continue (copy_executable os exec_dir path (target o) d) (λ u e. (e, some (target o))))
  copied-Served o path s d ho hs hash sound =
      let c : Copied os laws (target o) s d _ =
        copy_executable-Copied os laws (target o) s exec_dir path d hs (target-kept o ho) in
      let after : ExecSound (copy_executable os exec_dir path (target o) d).0 =
        Copied-ExecSound o s d _ ho hash sound c in
      Served-continue o (copy_executable os exec_dir path (target o) d) after ho

  materialize_executable-Served :
      (action_id o path : Text) (d : D)
      → AreBytes o
      → ExecSound d
      → Served o
          (materialize_executable os sha256 build_id windows direct exec_dir action_id o path d)
  unfolding materialize_executable
  materialize_executable-Served action_id o path d ho sound =
      if-cases (Served o)
        (not (matches os sha256 build_id windows direct exec_dir d action_id o path)) (d, none) _
        (λ h. record { sound = sound; hash = λ p e s h'. absurd (ground (arith, e)) })
        λ m.
          let src = matches-contents action_id o path d (ground (arith, m)) in
          if-cases (Served o) (direct && (windows || runs os sha256 d path)) (d, some path) _
            (λ h. record {
              sound = sound;
              hash = λ p e s h'.
                  same-hash src.0 s o (sym src.1 ∙ rw (some-injective path p e) h') src.2;
            })
            λ n.
              if-cases (Served o) (runs os sha256 d (target o) && has_hash os sha256 d (target o) o)
                (d, some (target o)) _
                (λ h. record {
                  sound = sound;
                  hash = λ p e s h'. sound o s ho (rw (some-injective (target o) p e) h');
                })
                λ k. copied-Served o path src.0 d ho src.1 src.2 sound

  -- The shim serves a file with the hash that the response names and notes it, or records a miss.
  pub record ServedOrMissed (action_id : Text) (res : CacheProgResponse) (s : CacheShim)
      (f : Forwarded D) : Type 0 where
    pub sound : ExecSound f.disk
    pub answer :
        ((f.response ≡ some miss_response) × (f.shim ≡ record_miss action_id s))
        ⊎ ((path : Text) × (size : ℕ) × (f.response ≡ some (record res { disk_path = path }))
            × ((t : Text) → os.read_file f.disk path ≡ contents t → sha256 t ≡ res.output_id)
            × (f.shim ≡ note_executable (encode_to_string res.output_id) (clean path) size s))

  serve_executable-answers :
      (action_id : Text) (res : CacheProgResponse) (d : D) (s : CacheShim)
      → AreBytes res.output_id
      → ExecSound d
      → ServedOrMissed action_id res s
          (serve_executable os sha256 build_id clean windows direct exec_dir action_id res d s)
  unfolding serve_executable
  serve_executable-answers action_id res d s ho sound =
      let r =
        materialize_executable os sha256 build_id windows direct exec_dir action_id res.output_id
          res.disk_path d in
      let w : Served res.output_id r =
        materialize_executable-Served action_id res.output_id res.disk_path d ho sound in
      elim (Option-cases r.1) [
        | inl e ↦ rw (e, serve_executable) (record { sound = w.sound; answer = inl (refl, refl) })
        | inr (path, e) ↦ elim (Option-cases (os.stat r.0 path)) [
          | inl f ↦
              rw (e, f, serve_executable) (record { sound = w.sound; answer = inl (refl, refl) })
          | inr (info, f) ↦
              rw (e, f, serve_executable)
                (if-cases (ServedOrMissed action_id res s) (not info.regular) _ _
                  (λ n. record { sound = w.sound; answer = inl (refl, refl) })
                  λ n. record {
                    sound = w.sound;
                    answer = inr (path, info.size, refl, w.hash path e, refl);
                  })
        ]
      ]

  with_output-keeps :
      (res : CacheProgResponse)
      → ((with_output res).miss ≡ res.miss) × ((with_output res).disk_path ≡ res.disk_path)
  unfolding with_output
  with_output-keeps res = (
    if-cases (λ r. r.miss ≡ res.miss) (is_empty res.output_id && not (is_empty res.object_id)) _ res
        (λ h. refl) (λ h. refl),
    if-cases (λ r. r.disk_path ≡ res.disk_path)
        (is_empty res.output_id && not (is_empty res.object_id)) _ res (λ h. refl) (λ h. refl),
  )

  forward_get-serve :
      (action_id : Text) (res : CacheProgResponse) (d : D) (s : CacheShim)
      → res.miss ≡ false
      → looks_like_executable os d res.disk_path ≡ true
      → forward_get os sha256 build_id clean windows direct exec_dir action_id res d s
        ≡ serve_executable os sha256 build_id clean windows direct exec_dir action_id res d
            (report_lookup action_id true s)
  unfolding forward_get
  forward_get-serve action_id res d s hm hl = ground (arith, hm, hl)

  forward-get :
      (req : CacheProgRequest) (res : CacheProgResponse) (d : D) (s : CacheShim)
      → req.command ≡ command_get
      → s.can_get ≡ true
      → forward os sha256 build_id clean windows direct exec_dir req (some res) d s
        ≡ forward_get os sha256 build_id clean windows direct exec_dir req.action_id
            (with_output res)
            d
            s
  unfolding forward
  forward-get req res d s hc hg = ground (arith, hc, hg)

  -- For a get that the helper answers with a file that looks like an executable, on a disk where
  -- the shim's own executables have the hashes of their names, forward records a miss and answers
  -- one, or answers a path whose file, if it can be read, has the hash of the response, and notes
  -- that path and hash; the shim's own executables keep the hashes of their names.
  pub forward-ServedOrMissed :
      (req : CacheProgRequest) (res : CacheProgResponse) (d : D) (s : CacheShim)
      → req.command ≡ command_get
      → s.can_get ≡ true
      → res.miss ≡ false
      → looks_like_executable os d res.disk_path ≡ true
      → AreBytes (with_output res).output_id
      → ExecSound d
      → ServedOrMissed req.action_id
          (with_output res)
          (report_lookup req.action_id true s)
          (forward os sha256 build_id clean windows direct exec_dir req (some res) d s)
  forward-ServedOrMissed req res d s hc hg hm hl ho sound =
      let kept = with_output-keeps res in
      rw
        (forward-get req res d s hc hg
          ∙ forward_get-serve req.action_id (with_output res) d s (kept.0 ∙ hm) (rw (kept.1) hl))
        (serve_executable-answers req.action_id (with_output res) d
          (report_lookup req.action_id true s) ho sound)
