-- ===== src/CacheProg/RegisterLaws.antt =====
-- cacheprog.go: registerExecutable.
use gotst.Prelude.{
  ◌&&◌, if◌then◌else◌, length, eqb, ◌||◌, is_empty, if-cases, Option-cases, ◌+◌, ◌≡◌, refl, Bool,
  true, false, ◌∷◌, Option, some, Text, text_eq, arith, inl, inr, ◌⊎◌, not, contains,
  contains-delete, delete, lookup,
}
use gotst.Files.{contents, Os, Read-kinds}
use gotst.Go.Hex.{decode_string}
use gotst.LocalCache.{CacheProgRequest, CacheProgResponse}
use gotst.CacheProg.Executables.{build_id_action}
use gotst.CacheProg.Shim.{
  put_request, CacheShim, ExecutableRegistration, RegisterStart, start_error, nothing_to_upload,
  uploads, is_file, register_begin, register_end, register_executable,
}

module _ {D : Type 0} (os : Os D) (sha256 : Text → Text) (build_id : D → Text → Option Text)
    (clean : Text → Text) (windows direct : Bool) (exec_dir : Text) where
  -- What an upload under a prefix starts with.
  pub record StartsUpload (reg : ExecutableRegistration) (d : D) (s : CacheShim)
      (prefix action_id output_id : Text) : Type 0 where
    pub build : (id : Text) × (build_id d reg.path ≡ some id) × (build_id_action id ≡ some prefix)
    pub missed : lookup prefix s.misses ≡ some action_id
    pub hash : decode_string reg.output_hash ≡ some output_id
    pub file : is_file os sha256 build_id clean windows direct exec_dir d reg output_id ≡ true
    pub supported : s.can_put ≡ true
    pub fresh : contains s.uploaded prefix ≡ false

  -- The start changes the shim only where it starts an upload, which it marks.
  abbrev Starts : ExecutableRegistration → D → CacheShim → RegisterStart × CacheShim → Type 0
  Starts reg d s (start_error, t) = t ≡ s
  Starts reg d s (nothing_to_upload, t) = t ≡ s
  Starts reg d s (uploads prefix action_id output_id, t) =
      StartsUpload reg d s prefix action_id output_id
      × (t ≡ record s { uploaded = prefix ∷ s.uploaded })

  register_begin-Starts :
      (reg : ExecutableRegistration) (d : D) (s : CacheShim)
      → Starts reg d s (register_begin os sha256 build_id clean windows direct exec_dir reg d s)
  unfolding register_begin
  register_begin-Starts reg d s = elim (Option-cases (build_id d reg.path)) [
    | inl a ↦ rw (a, register_begin) refl
    | inr (id, a) ↦ elim (Option-cases (build_id_action id)) [
      | inl b ↦ rw (a, b, register_begin) refl
      | inr (prefix, b) ↦ elim (Option-cases (lookup prefix s.misses)) [
        | inl c ↦ rw (a, b, c, register_begin) refl
        | inr (action_id, c) ↦
            rw (a, b, c, register_begin)
              (if-cases (Starts reg d s) (is_empty action_id || not s.can_put) _ _ (λ h. refl)
                λ h. elim (Option-cases (decode_string reg.output_hash)) [
                  | inl e ↦ rw (e) refl
                  | inr (o, e) ↦ rw (e) (
                      if-cases (Starts reg d s)
                        (not (eqb (length o) 32)
                          || not (is_file os sha256 build_id clean windows direct exec_dir d reg o))
                        _ _ (λ g. refl)
                        λ g.
                          if-cases (Starts reg d s) (contains s.uploaded prefix) _ _ (λ k. refl)
                            λ k. (
                              record {
                                build = (id, a, b);
                                missed = c;
                                hash = e;
                                file = ground (arith, g);
                                supported = ground (arith, h);
                                fresh = k;
                              },
                              refl,
                            ))
                ])
      ]
    ]
  ]

  -- What an upload does: the helper takes the file and answers with a path, which becomes
  -- executable where the helper's files are executed directly.
  pub record Uploads (reg : ExecutableRegistration)
      (send : CacheProgRequest → Text → Option CacheProgResponse) (d : D) (s : CacheShim)
      (r : D × Bool × CacheShim) : Type 0 where
    pub prefix : Text
    pub action_id : Text
    pub output_id : Text
    pub body : Text
    pub response : CacheProgResponse
    pub begun : StartsUpload reg d s prefix action_id output_id
    pub reads : os.read_file d reg.path ≡ contents body
    pub hash : sha256 body ≡ output_id
    pub size : length body ≡ reg.size
    pub answer : send (put_request reg action_id output_id) body ≡ some response
    pub path : is_empty response.disk_path ≡ false
    pub marks :
        (if direct && not windows then os.chmod d response.disk_path 0o700 else (d, true))
        ≡ (r.0, true)
    pub shim : r.2 ≡ record s { uploaded = prefix ∷ s.uploaded; exec_puts = s.exec_puts + 1 }

  -- A registration that fails leaves the shim's marks and counter as they were; one that succeeds
  -- changes nothing, or uploaded an output for the first time.
  pub record Registers (reg : ExecutableRegistration)
      (send : CacheProgRequest → Text → Option CacheProgResponse) (d : D) (s : CacheShim)
      (r : D × Bool × CacheShim) : Type 0 where
    pub on_error :
        r.1 ≡ false
        → (r.2.exec_puts ≡ s.exec_puts)
          × ((k : Text) → contains r.2.uploaded k ≡ contains s.uploaded k)
    pub on_success : r.1 ≡ true → ((r.0 ≡ d) × (r.2 ≡ s)) ⊎ Uploads reg send d s r

  undone-contains :
      (s : CacheShim) (prefix : Text)
      → contains s.uploaded prefix ≡ false
      → (k : Text) → contains (delete prefix (prefix ∷ s.uploaded)) k ≡ contains s.uploaded k
  unfolding contains
  undone-contains s prefix h k =
      ground (arith, contains-delete prefix k (prefix ∷ s.uploaded), text_eq.beq_iff prefix k, h)

  undone-Registers :
      (reg : ExecutableRegistration) (send : CacheProgRequest → Text → Option CacheProgResponse)
      (prefix : Text) (d e : D) (s : CacheShim)
      → contains s.uploaded prefix ≡ false
      → Registers reg send d s
          (e, false, record s { uploaded = delete prefix (prefix ∷ s.uploaded) })
  undone-Registers reg send prefix d e s fresh = record {
    on_error = λ h. (refl, undone-contains s prefix fresh);
    on_success = λ h. absurd (ground (arith, h));
  }

  file-contents :
      (reg : ExecutableRegistration) (output_id body : Text) (d : D)
      → is_file os sha256 build_id clean windows direct exec_dir d reg output_id ≡ true
      → os.read_file d reg.path ≡ contents body
      → (sha256 body ≡ output_id) × (length body ≡ reg.size)
  unfolding is_file
  file-contents reg output_id body d h e =
      ground (arith, e, h, text_eq.beq_iff (sha256 body) output_id)

  marked-Registers :
      (reg : ExecutableRegistration) (send : CacheProgRequest → Text → Option CacheProgResponse)
      (prefix action_id output_id body : Text) (res : CacheProgResponse) (d : D) (s : CacheShim)
      → StartsUpload reg d s prefix action_id output_id
      → os.read_file d reg.path ≡ contents body
      → send (put_request reg action_id output_id) body ≡ some res
      → is_empty res.disk_path ≡ false
      → (m : D × Bool)
      → (if direct && not windows then os.chmod d res.disk_path 0o700 else (d, true)) ≡ m
      → Registers reg send d s (
        m.0,
        m.1,
        if m.1
            then record s { uploaded = prefix ∷ s.uploaded; exec_puts = s.exec_puts + 1 }
            else record s { uploaded = delete prefix (prefix ∷ s.uploaded) },
      )
  marked-Registers reg send prefix action_id output_id body res d s start a b c (e, true) m =
      let whole = file-contents reg output_id body d start.file a in
      record {
        on_error = λ h. absurd (ground (arith, h));
        on_success = λ h. inr (record {
          prefix = prefix;
          action_id = action_id;
          output_id = output_id;
          body = body;
          response = res;
          begun = start;
          reads = a;
          hash = whole.0;
          size = whole.1;
          answer = b;
          path = c;
          marks = m;
          shim = refl;
        });
      }
  marked-Registers reg send prefix action_id output_id body res d s start a b c (e, false) m =
      undone-Registers reg send prefix d e s start.fresh

  register_end-Registers :
      (reg : ExecutableRegistration) (send : CacheProgRequest → Text → Option CacheProgResponse)
      (prefix action_id output_id : Text) (d : D) (s : CacheShim)
      → StartsUpload reg d s prefix action_id output_id
      → Registers reg send d s (
          register_end os sha256 build_id clean windows direct exec_dir reg prefix action_id
            output_id send d
            (record s { uploaded = prefix ∷ s.uploaded }))
  unfolding register_end
  register_end-Registers reg send prefix action_id output_id d s start =
      let undone : (e : D)
          → Registers reg send d s
              (e, false, record s { uploaded = delete prefix (prefix ∷ s.uploaded) }) =
        λ e. undone-Registers reg send prefix d e s start.fresh in
      let request = put_request reg action_id output_id in
      elim (Read-kinds (os.read_file d reg.path)) [
        | inl (inl a) ↦ rw (a, register_end) (undone d)
        | inl (inr a) ↦ rw (a, register_end) (undone d)
        | inr (body, a) ↦ elim (Option-cases (send request body)) [
          | inl b ↦ rw (a, b, register_end) (undone d)
          | inr (res, b) ↦
              rw (a, b, register_end)
                (if-cases (Registers reg send d s) (is_empty res.disk_path) _ _ (λ h. undone d)
                  λ h.
                    marked-Registers reg send prefix action_id output_id body res d s start a b h
                      (if direct && not windows then os.chmod d res.disk_path 0o700 else (d, true))
                      refl)
        ]
      ]

  started-Registers :
      (reg : ExecutableRegistration) (send : CacheProgRequest → Text → Option CacheProgResponse)
      (d : D) (s : CacheShim) (r : RegisterStart × CacheShim)
      → Starts reg d s r
      → Registers reg send d s (elim r.0 [
        | start_error ↦ (d, false, r.1)
        | nothing_to_upload ↦ (d, true, r.1)
        | uploads prefix action_id output_id ↦
            register_end os sha256 build_id clean windows direct exec_dir reg prefix action_id
              output_id send d r.1
      ])
  started-Registers reg send d s (start_error, t) same =
      rw same
        (record { on_error = λ h. (refl, λ k. refl); on_success = λ h. absurd (ground (arith, h)) })
  started-Registers reg send d s (nothing_to_upload, t) same =
      rw same
        (record { on_error = λ h. absurd (ground (arith, h)); on_success = λ h. inl (refl, refl) })
  started-Registers reg send d s (uploads prefix action_id output_id, t) begun =
      rw (begun.1) (register_end-Registers reg send prefix action_id output_id d s begun.0)

  -- A registration that fails leaves the marks of uploads and their counter as they were; one that
  -- succeeds changes nothing, or the helper answered with a path to the put of the file, which has
  -- the registered hash and size, for the action that was missed under the build ID of the file
  -- and had no upload before, the path was made executable where that is needed, and the upload is
  -- marked and counted.
  pub register_executable-Registers :
      (reg : ExecutableRegistration) (send : CacheProgRequest → Text → Option CacheProgResponse)
      (d : D) (s : CacheShim)
      → Registers reg send d s
          (register_executable os sha256 build_id clean windows direct exec_dir reg send d s)
  unfolding register_executable
  register_executable-Registers reg send d s =
      started-Registers reg send d s
        (register_begin os sha256 build_id clean windows direct exec_dir reg d s)
        (register_begin-Starts reg d s)
