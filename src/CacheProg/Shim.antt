-- ===== src/CacheProg/Shim.antt =====
-- cacheprog.go: cacheShim with forward, recordMiss, executableWasCached and registerExecutable. What
-- the helper answers to a request is a parameter, and so are filepath.Clean and go tool buildid.
use gotst.Prelude.{
  ℕ, ◌+◌, Bool, true, false, not, ◌&&◌, ◌||◌, List, [], ◌∷◌, ◌++◌, Option, none, some, Text,
  text_eq, ◌==◌, length, eqb, contains, delete, lookup, insert, is_empty, if◌then◌else◌,
}
use gotst.Go.Hex.{encode_to_string, decode_string}
use gotst.Files.{missing, unreadable, contents, Os}
use gotst.LocalCache.{
  command_get, command_put, command_close, command_other, CacheProgRequest, CacheProgResponse,
  miss_response,
}
use gotst.CacheProg.Executables.{
  action_id_prefix, build_id_action, looks_like_executable, materialize_executable,
}

-- `executableRegistration`, `verifiedExecutable` and `cacheLookupEvent`.
pub record ExecutableRegistration : Type 0 where
  pub path : Text
  pub output_hash : Text
  pub size : ℕ

pub record VerifiedExecutable : Type 0 where
  pub output_hash : Text
  pub size : ℕ

pub record CacheLookupEvent : Type 0 where
  pub action_id : Text
  pub hit : Bool

-- `cacheShim`; `can_get` and `can_put` are the helper's commands, and `lookups` has the calls of
-- cacheLookup, if that is set.
pub record CacheShim : Type 0 where
  pub can_get : Bool
  pub can_put : Bool
  pub reports_lookups : Bool
  pub misses : List (Text × Text)
  pub uploaded : List Text
  pub exec_hit : List Text
  pub verified_exec : List (Text × VerifiedExecutable)
  pub exec_hits : ℕ
  pub exec_puts : ℕ
  pub lookups : List CacheLookupEvent

-- `recordMiss`
unfoldable pub record_miss : Text → CacheShim → CacheShim
record_miss action_id s =
    let prefix = action_id_prefix action_id in
    if is_empty prefix then s else record s { misses = insert prefix action_id s.misses }

-- `executableWasCached`
unfoldable pub executable_was_cached : CacheShim → Text → Bool
executable_was_cached s output_hash = contains s.exec_hit output_hash

abbrev pub report_lookup : Text → Bool → CacheShim → CacheShim
report_lookup action_id hit s = record s {
  lookups =
      if s.reports_lookups
      then s.lookups ++ record { action_id = action_id; hit = hit } ∷ []
      else s.lookups;
}

-- An executable of the size is served from the path.
unfoldable pub note_executable : Text → Text → ℕ → CacheShim → CacheShim
note_executable output_hash path size s = record s {
  exec_hit = if contains s.exec_hit output_hash then s.exec_hit else output_hash ∷ s.exec_hit;
  verified_exec = insert path (record { output_hash = output_hash; size = size }) s.verified_exec;
  exec_hits = s.exec_hits + 1;
}

-- The older name of the output ID.
unfoldable pub with_output : CacheProgResponse → CacheProgResponse
with_output res =
    if is_empty res.output_id && not (is_empty res.object_id)
    then record res { output_id = res.object_id }
    else res

-- What a step leaves on the disk and in the shim, and its response; `none` is an error.
pub record Forwarded (D : Type 0) : Type 0 where
  pub disk : D
  pub shim : CacheShim
  pub response : Option CacheProgResponse

-- How registerExecutable starts; an upload has the prefix, the action and the output.
pub data RegisterStart : Type 0 where
  start_error nothing_to_upload : RegisterStart
  uploads : Text → Text → Text → RegisterStart

-- The put of the open file, whose number the client gives.
abbrev pub put_request : ExecutableRegistration → Text → Text → CacheProgRequest
put_request reg action_id output_id = record {
  id = 0;
  command = command_put;
  action_id = action_id;
  output_id = output_id;
  object_id = [];
  body_size = reg.size;
}

module _ {D : Type 0} (os : Os D) (sha256 : Text → Text) (build_id : D → Text → Option Text)
    (clean : Text → Text) (windows direct : Bool) (exec_dir : Text) where
  -- `forward` from the executable's check on
  unfoldable pub serve_executable : Text → CacheProgResponse → D → CacheShim → Forwarded D
  unfolding record_miss note_executable
  serve_executable action_id res d s =
      let r =
        materialize_executable os sha256 build_id windows direct exec_dir action_id res.output_id
          res.disk_path d in
      let missed : CacheShim → Forwarded D =
        λ t. record { disk = r.0; shim = record_miss action_id t; response = some miss_response } in
      elim r.1 [
        | none ↦ missed s
        | some path ↦ elim (os.stat r.0 path) [
          | none ↦ missed s
          | some info ↦ if not info.regular then missed s else record {
            disk = r.0;
            shim = note_executable (encode_to_string res.output_id) (clean path) info.size s;
            response = some (record res { disk_path = path });
          }
        ]
      ]

  -- `forward` of a get, with the helper's response
  unfoldable pub forward_get : Text → CacheProgResponse → D → CacheShim → Forwarded D
  unfolding record_miss
  forward_get action_id res d s =
      if res.miss
      then record {
        disk = d;
        shim = report_lookup action_id false (record_miss action_id s);
        response = some res;
      }
      else if looks_like_executable os d res.disk_path
      then serve_executable action_id res d (report_lookup action_id true s)
      else record { disk = d; shim = report_lookup action_id true s; response = some res }

  -- `forward`; `sent` is what the helper returns.
  unfoldable pub forward : CacheProgRequest → Option CacheProgResponse → D → CacheShim → Forwarded D
  forward req sent d s =
      let passed : Forwarded D = record { disk = d; shim = s; response = sent } in
      elim req.command [
        | command_get ↦
            if not s.can_get then forward_get req.action_id miss_response d s else elim sent [
              | none ↦ passed
              | some res ↦ forward_get req.action_id (with_output res) d s
            ]
        | command_put ↦ passed
        | command_close ↦ passed
        | command_other name ↦ passed
      ]

  -- `hashFile` gives the hash and the size of the registration.
  unfoldable pub is_file : D → ExecutableRegistration → Text → Bool
  is_file d reg output_id = elim (os.read_file d reg.path) [
    | missing ↦ false
    | unreadable ↦ false
    | contents body ↦ sha256 body == output_id && eqb (length body) reg.size
  ]

  -- `registerExecutable` up to the upload: an error, nothing to do, or the upload of an output for an
  -- action, which is marked under a prefix.
  unfoldable pub register_begin : ExecutableRegistration → D → CacheShim → RegisterStart × CacheShim
  unfolding build_id_action is_file
  register_begin reg d s = elim (build_id d reg.path) [
    | none ↦ (start_error, s)
    | some id ↦ elim (build_id_action id) [
      | none ↦ (start_error, s)
      | some prefix ↦ elim (lookup prefix s.misses) [
        | none ↦ (nothing_to_upload, s)
        | some action_id ↦
            if is_empty action_id || not s.can_put
            then (nothing_to_upload, s)
            else elim (decode_string reg.output_hash) [
              | none ↦ (start_error, s)
              | some output_id ↦
                  if not (eqb (length output_id) 32) || not (is_file d reg output_id)
                  then (start_error, s)
                  else if contains s.uploaded prefix
                  then (nothing_to_upload, s)
                  else (
                    uploads prefix action_id output_id,
                    record s { uploaded = prefix ∷ s.uploaded },
                  )
            ]
      ]
    ]
  ]

  -- `registerExecutable` after the upload is marked; `send` is what the helper returns for a request
  -- with a body. The Boolean says whether there is no error.
  unfoldable pub register_end :
      ExecutableRegistration
      → Text
      → Text
      → Text
      → (CacheProgRequest → Text → Option CacheProgResponse)
      → D
      → CacheShim
      → D × Bool × CacheShim
  register_end reg prefix action_id output_id send d s =
      let undone = record s { uploaded = delete prefix s.uploaded } in
      elim (os.read_file d reg.path) [
        | missing ↦ (d, false, undone)
        | unreadable ↦ (d, false, undone)
        | contents body ↦ elim (send (put_request reg action_id output_id) body) [
          | none ↦ (d, false, undone)
          | some res ↦
              if is_empty res.disk_path
              then (d, false, undone)
              else let marked : D × Bool =
                  if direct && not windows then os.chmod d res.disk_path 0o700 else (d, true) in
                (
                  marked.0,
                  marked.1,
                  if marked.1 then record s { exec_puts = s.exec_puts + 1 } else undone,
                )
        ]
      ]

  -- `registerExecutable`, when no other one runs
  unfoldable pub register_executable :
      ExecutableRegistration
      → (CacheProgRequest → Text → Option CacheProgResponse)
      → D
      → CacheShim
      → D × Bool × CacheShim
  register_executable reg send d s =
      let r = register_begin reg d s in
      elim r.0 [
        | start_error ↦ (d, false, r.1)
        | nothing_to_upload ↦ (d, true, r.1)
        | uploads prefix action_id output_id ↦
            register_end reg prefix action_id output_id send d r.1
      ]

-- The answer of `acceptLoop` to a question for a verified executable.
unfoldable pub verified_reply : (Text → Text) → Text → CacheShim → VerifiedExecutable
verified_reply clean path s = elim (lookup (clean path) s.verified_exec) [
  | none ↦ record { output_hash = []; size = 0 }
  | some v ↦ v
]
