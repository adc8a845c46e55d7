-- ===== src/HistoryStore/PruneLaws.antt =====
-- history.go: what prune removes and what it leaves.
use mathlib.Core.List.{Perm}
use gotst.Prelude.{
  ◌∙◌, ap, sym, subst, min, inl, inr, Bool-cases, ℕ, ◌≤◌, ◌≡◌, refl, Bool, true, false, not, ◌||◌,
  List, [], ◌∷◌, ◌++◌, Option, none, some, Text, text_eq, ◌==◌, All, take, drop, length,
  length-take, take-drop_append, is_some, arith,
}
use gotst.Go.Sort.{sort_by}
use gotst.Go.SortLaws.{length-sort_by, sort_by-Perm, sort_by-Sorted, take-drop}
use gotst.History.{Key, Observation}
use gotst.Schedule.{newer}
use gotst.Files.{Os, OsLaws, missing, contents}
use gotst.HistoryStore.Disk.{
  Listing, DirEntry, entries, FileObservation, file_before, key_dir, decode_files, remove_files,
  pruned, prune,
}

-- The second file's observation is not newer.
abbrev pub NoNewer : FileObservation → FileObservation → Type 0
NoNewer a b = b.obs.observed_at ≤ a.obs.observed_at

file-NoNewer : (a b : FileObservation) → file_before a b ≡ true → NoNewer a b
unfolding file_before newer
file-NoNewer a b h = ground arith

file-behind : (a b : FileObservation) → file_before a b ≡ false → NoNewer b a
unfolding file_before newer
file-behind a b h = ground arith

module _ {D : Type 0} (os : Os D) where
  -- The file cannot be read.
  abbrev pub Gone : D → Text → Type 0
  Gone d p = (s : Text) → ¬ (os.read_file d p ≡ contents s)

  -- What pruning to a limit does to the files of a directory: it keeps the newest, as many as the
  -- limit or all, and removes the others, and nothing else.
  pub record Prunes (limit : ℕ) (files : List FileObservation) (d e : D) : Type 0 where
    pub kept : List FileObservation
    pub removed : List FileObservation
    pub whole : Perm (kept ++ removed) files
    pub size : length kept ≡ min limit (length files)
    pub newest : All (λ a. All (NoNewer a) removed) kept
    pub gone : All (λ (f : FileObservation). Gone e f.path) removed
    pub others :
        (q : Text)
        → All (λ (f : FileObservation). (f.path == q) ≡ false) removed
        → os.read_file e q ≡ os.read_file d q

  module _ (laws : OsLaws os) (read_dir : D → Text → Listing) (key_id : Key → Text)
      (sha256 : Text → Text) (marshal : Observation → Option Text)
      (unmarshal : Text → Option Observation) (dir : Text) where
    remove-Gone : (d : D) (p q : Text) → Gone d p → Gone (os.remove d q).0 p
    remove-Gone d p q g s h = elim (Bool-cases (os.remove d q).1) [
      | inr failed ↦ g s (sym (laws.remove_fails d q p failed) ∙ h)
      | inl done ↦ elim (Bool-cases (q == p)) [
        | inr other ↦ g s (sym (laws.remove_keeps d q p other) ∙ h)
        | inl same ↦
            let path : q ≡ p = (text_eq.beq_iff q p).0 same in
            let removed : os.read_file (os.remove d q).0 p ≡ missing =
              subst (λ r. os.read_file (os.remove d q).0 r ≡ missing) path
                (laws.remove_removes d q done) in
            ground (arith, removed, h)
      ]
    ]

    -- A file that is removed, or that is not there afterwards.
    removed-Gone :
        (d : D) (p : Text)
        → ((os.remove d p).1 || not (is_some (os.stat (os.remove d p).0 p))) ≡ true
        → Gone (os.remove d p).0 p
    removed-Gone d p h s e = elim (Bool-cases (os.remove d p).1) [
      | inl done ↦ ground (arith, laws.remove_removes d p done, e)
      | inr failed ↦
          let (i, found) = laws.stat_finds (os.remove d p).0 p s e in
          ground (arith, h, failed, found)
    ]

    remove_files-Gone :
        (fs : List FileObservation) (d : D) (p : Text)
        → Gone d p
        → Gone (remove_files os read_dir key_id sha256 marshal unmarshal dir fs d).0 p
    unfolding remove_files
    remove_files-Gone [] d p g = g
    remove_files-Gone (f ∷ fs) d p g =
        elim (Bool-cases
          ((os.remove d f.path).1 || not (is_some (os.stat (os.remove d f.path).0 f.path)))) [
            | inl e ↦
                rw (e, remove_files)
                  (remove_files-Gone fs (os.remove d f.path).0 p (remove-Gone d p f.path g))
            | inr e ↦ rw (e, remove_files) (remove-Gone d p f.path g)
          ]

    -- What the loop does with its first file.
    abbrev goes_on : FileObservation → D → Bool
    goes_on f d = (os.remove d f.path).1 || not (is_some (os.stat (os.remove d f.path).0 f.path))

    remove_files-first :
        (f : FileObservation) (fs : List FileObservation) (d : D)
        → goes_on f d ≡ true
        → remove_files os read_dir key_id sha256 marshal unmarshal dir (f ∷ fs) d
          ≡ remove_files os read_dir key_id sha256 marshal unmarshal dir fs (os.remove d f.path).0
    unfolding remove_files
    remove_files-first f fs d c = rw (c, remove_files) refl

    remove_files-error :
        (f : FileObservation) (fs : List FileObservation) (d : D)
        → goes_on f d ≡ false
        → remove_files os read_dir key_id sha256 marshal unmarshal dir (f ∷ fs) d
          ≡ ((os.remove d f.path).0, none)
    unfolding remove_files
    remove_files-error f fs d c = rw (c, remove_files) refl

    abbrev Removes : List FileObservation → D × Option (Unit {0}) → Type 0
    Removes fs r = r.1 ≡ some tt → All (λ (f : FileObservation). Gone r.0 f.path) fs

    remove_files-Removes :
        (fs : List FileObservation) (d : D)
        → Removes fs (remove_files os read_dir key_id sha256 marshal unmarshal dir fs d)
    remove_files-Removes [] d = λ h. tt
    remove_files-Removes (f ∷ fs) d =
        let e = (os.remove d f.path).0 in
        elim (Bool-cases (goes_on f d)) [
          | inl c ↦ subst (Removes (f ∷ fs)) (sym (remove_files-first f fs d c)) (λ h. (
            remove_files-Gone fs e f.path (removed-Gone d f.path c),
            remove_files-Removes fs e h,
          ))
          | inr c ↦
              subst (Removes (f ∷ fs)) (sym (remove_files-error f fs d c))
                (λ h. absurd (ground (arith, h)))
        ]

    remove_files-others :
        (fs : List FileObservation) (d : D) (q : Text)
        → All (λ (f : FileObservation). (f.path == q) ≡ false) fs
        → os.read_file (remove_files os read_dir key_id sha256 marshal unmarshal dir fs d).0 q
          ≡ os.read_file d q
    unfolding remove_files
    remove_files-others [] d q h = refl
    remove_files-others (f ∷ fs) d q h =
        let keeps = laws.remove_keeps d f.path q h.0 in
        elim (Bool-cases
          ((os.remove d f.path).1 || not (is_some (os.stat (os.remove d f.path).0 f.path)))) [
            | inl c ↦
                rw (c, remove_files) (remove_files-others fs (os.remove d f.path).0 q h.1 ∙ keeps)
            | inr c ↦ rw (c, remove_files) keeps
          ]

    -- On a disk that behaves as package os says, a prune that succeeds parts the observations of
    -- the directory into those that it keeps, as many as the limit or all, and those that it
    -- removes, none of which is newer than one that it keeps; the files of the latter cannot be
    -- read any more, and every other file is as it was.
    pub prune-Prunes :
        (id : Text) (limit : ℕ) (d : D) (es : List DirEntry) (files : List FileObservation)
        → read_dir d (key_dir os read_dir key_id sha256 marshal unmarshal dir id) ≡ entries es
        → decode_files os read_dir key_id sha256 marshal unmarshal dir d
            (key_dir os read_dir key_id sha256 marshal unmarshal dir id)
            es
          ≡ some files
        → (prune os read_dir key_id sha256 marshal unmarshal dir id limit d).1 ≡ some tt
        → Prunes limit files d (prune os read_dir key_id sha256 marshal unmarshal dir id limit d).0
    unfolding prune pruned
    prune-Prunes id limit d es files listed decoded =
        let sorted = sort_by file_before files in
        rw (listed, decoded, prune)
          (λ h. record {
            kept = take limit sorted;
            removed = drop limit sorted;
            whole =
                subst (λ fs. Perm fs files) (sym (take-drop_append limit sorted))
                  (sort_by-Perm file_before files);
            size = length-take limit sorted ∙ ap (min limit) (length-sort_by file_before files);
            newest = take-drop NoNewer limit sorted (
                sort_by-Sorted NoNewer file_before file-NoNewer file-behind
                  (λ a b c h g. omega (arith, h, g)) files);
            gone = remove_files-Removes (drop limit sorted) d h;
            others = λ q o. remove_files-others (drop limit sorted) d q o;
          })
