-- ===== src/LocalCache/ServeLaws.antt =====
-- localcache.go: serve and its answers.
use gotst.Prelude.{
  eqb_iff, eqb, inr, Option-cases, inl, ◌⊎◌, Bool-cases, ◌≡◌, refl, ◌↔◌, true, false, List, [], ◌∷◌,
  Option, none, some, Text, arith, length, All,
}
use gotst.Go.Hex.{encode_to_string}
use gotst.Files.{Read-kinds, unreadable, Os}
use gotst.LocalCache.Data.{
  CacheProgCommand, command_get, command_put, command_close, command_other, CacheProgRequest,
  LocalCacheIndex, LocalBuildCache, valid_cache_hex, action_path,
}
use gotst.LocalCache.Store.{local_get, indexed_object}
use gotst.LocalCache.Serve.{
  Message, message_request, message_body, malformed, Job, serve, answer, with_output_id, has_body,
  is_close,
}

command-cases :
    (k : CacheProgCommand)
    → ((k ≡ command_get) ⊎ (k ≡ command_put))
      ⊎ ((k ≡ command_close) ⊎ ((n : Text) × (k ≡ command_other n)))
command-cases command_get = inl (inl refl)
command-cases command_put = inl (inr refl)
command-cases command_close = inr (inl refl)
command-cases (command_other n) = inr (inr (n, refl))

module _ {D : Type 0} (os : Os D) (sha256 : Text → Text) (marshal : LocalCacheIndex → Option Text)
    (unmarshal : Text → Option LocalCacheIndex) (c : LocalBuildCache) (d : D) where
  -- The read of an action's index fails, and not because it is missing.
  abbrev Unreadable : Text → Type 0
  Unreadable action_id =
      (valid_cache_hex (encode_to_string action_id) ≡ true)
      × (os.read_file d (action_path c (encode_to_string action_id)) ≡ unreadable)

  local_get-none :
      (action_id : Text)
      → local_get os sha256 marshal unmarshal c action_id d ≡ none
      → Unreadable action_id
  unfolding local_get
  local_get-none action_id h =
      elim (Read-kinds (os.read_file d (action_path c (encode_to_string action_id)))) [
        | inl (inl e) ↦ absurd (ground (arith, e, h))
        | inl (inr e) ↦ (ground (arith, e, h), e)
        | inr (s, e) ↦ elim (Option-cases (unmarshal s)) [
          | inl f ↦ absurd (ground (arith, e, f, h))
          | inr (idx, f) ↦
              elim (Option-cases (indexed_object os sha256 marshal unmarshal d c idx)) [
                | inl g ↦ absurd (ground (arith, e, f, g, h))
                | inr (r, g) ↦ absurd (ground (arith, e, f, g, h))
              ]
        ]
      ]

  Unreadable-none :
      (action_id : Text)
      → Unreadable action_id
      → local_get os sha256 marshal unmarshal c action_id d ≡ none
  unfolding local_get
  Unreadable-none action_id h = rw (h.0, h.1)

  -- The answer to a request dereferences nil if and only if the request is a get of a valid action
  -- whose index is there and cannot be read.
  pub answer-none :
      (message : Text) (job : Job)
      → (answer os sha256 marshal unmarshal message c job d ≡ none) ↔ (
          (job.request.command ≡ command_get)
          × (valid_cache_hex (encode_to_string job.request.action_id) ≡ true)
          × (os.read_file d (action_path c (encode_to_string job.request.action_id)) ≡ unreadable))
  unfolding answer
  answer-none message job = (
    λ h. elim (command-cases job.request.command) [
      | inl (inl e) ↦
          elim (Option-cases (local_get os sha256 marshal unmarshal c job.request.action_id d)) [
            | inl f ↦ let u = local_get-none job.request.action_id f in (e, u.0, u.1)
            | inr (r, f) ↦ absurd (ground (arith, e, f, h))
          ]
      | inl (inr e) ↦ absurd (ground (arith, e, h))
      | inr (inl e) ↦ absurd (ground (arith, e, h))
      | inr (inr (n, e)) ↦ absurd (ground (arith, e, h))
    ],
    λ h. let f = Unreadable-none job.request.action_id (h.1, h.2) in ground (arith, h.0, f),
  )

-- What the loop starts has no request to close, and a put with a size has a body of it.
abbrev pub IsReady : Job → Type 0
IsReady job =
    (is_close job.request ≡ false)
    × (has_body job.request ≡ true → length job.body ≡ job.request.body_size)

abbrev Waits : Option CacheProgRequest → Type 0
Waits none = Unit
Waits (some req) = has_body req ≡ true

has_body-close : (req : CacheProgRequest) → has_body req ≡ true → is_close req ≡ false
unfolding has_body is_close
has_body-close req h = elim (command-cases req.command) [
  | inl (inl e) ↦ rw e
  | inl (inr e) ↦ rw e
  | inr (inl e) ↦ absurd (ground (arith, e, h))
  | inr (inr (n, e)) ↦ rw e
]

serve-waiting :
    (waiting : Option CacheProgRequest) (ms : List Message)
    → Waits waiting
    → All IsReady (serve waiting ms).jobs
unfolding serve
serve-waiting none [] h = tt
serve-waiting none (malformed ∷ ms) h = tt
serve-waiting none (message_body b ∷ ms) h = tt
serve-waiting none (message_request raw ∷ ms) h =
    let req = with_output_id raw in
    elim (Bool-cases (has_body req)) [
      | inl e ↦ rw (e, serve) (serve-waiting (some req) ms e)
      | inr e ↦ elim (Bool-cases (is_close req)) [
        | inl f ↦ rw (e, f, serve) tt
        | inr f ↦
            rw (e, f, serve) ((f, λ g. absurd (ground (arith, e, g))), serve-waiting none ms tt)
      ]
    ]
serve-waiting (some req) (message_body b ∷ ms) h =
    elim (Bool-cases (eqb (length b) req.body_size)) [
      | inl e ↦
          rw (e, serve)
            (
              (has_body-close req h, λ g. (eqb_iff (length b) req.body_size).0 e),
              serve-waiting none ms tt,
            )
      | inr e ↦ rw (e, serve) tt
    ]
serve-waiting (some req) [] h = tt
serve-waiting (some req) (malformed ∷ ms) h = tt
serve-waiting (some req) (message_request r ∷ ms) h = tt

-- No job that the loop of serve starts is a request to close, and one that has a body has all of it.
pub serve-IsReady : (ms : List Message) → All IsReady (serve none ms).jobs
serve-IsReady ms = serve-waiting none ms tt
