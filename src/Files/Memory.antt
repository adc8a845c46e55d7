-- ===== src/Files/Memory.antt =====
-- Package os on a disk in memory, for tests: an association list from paths to contents.
use gotst.Prelude.{
  erase, lookup-erase, ◌∙◌, sym, ap, ==_refl, ◌≡◌, refl, Bool, true, false, List, [], ◌∷◌, Option,
  none, some, Text, text_eq, ◌==◌, length, lookup, insert, lookup-insert, if◌then◌else◌, arith,
  Bool-cases, inl, inr,
}
use gotst.Go.Paths.{has_slash, after_last_slash}
use gotst.Go.Strings.{has_prefix}
use gotst.Files.{Read, missing, contents, FileInfo, Os, OsLaws}

abbrev pub Memory : Type 0
Memory = List (Text × Text)

-- A temporary file is named by the start of its name, which may have no slash; a renamed file stays.
abbrev read_of : Option Text → Read
read_of none = missing
read_of (some s) = contents s

abbrev stat_of : Option Text → Option FileInfo
stat_of none = none
stat_of (some s) =
    some (record { regular = true; executable = true; size = length s; mod_time = 7 })

abbrev read_memory : Memory → Text → Read
read_memory d p = read_of (lookup p d)

abbrev rename_of : Option Text → Memory → Text → Memory × Bool
rename_of none d q = (d, false)
rename_of (some s) d q = (insert q s d, true)

abbrev rename_memory : Memory → Text → Text → Memory × Bool
rename_memory d p q = rename_of (lookup p d) d q

abbrev created_of : Bool → Memory → Text → Memory × Option Text
created_of true d start = (d, none)
created_of false d start = (insert start [] d, some start)

abbrev remove_of : Option Text → Memory → Text → Memory × Bool
remove_of none d p = (d, false)
remove_of (some s) d p = (erase p d, true)

abbrev pub memory_os : Os Memory
memory_os = record {
  read_file = read_memory;
  stat = λ d p. stat_of (lookup p d);
  mkdir_all = λ d p. (d, true);
  create_temp = λ d dir start. created_of (has_slash start) d start;
  chmod = λ d p mode. (d, true);
  write = λ d p s. (insert p s d, true);
  close = λ d p. (d, true);
  rename = rename_memory;
  remove = λ d p. remove_of (lookup p d) d p;
}

after_last_slash-plain : (p : Text) → has_slash p ≡ false → after_last_slash p ≡ p
unfolding after_last_slash has_slash
after_last_slash-plain [] h = refl
after_last_slash-plain (c ∷ p) h = ground (arith, after_last_slash-plain p)

has_prefix_refl : (p : Text) → has_prefix p p ≡ true
unfolding has_prefix
has_prefix_refl [] = refl
has_prefix_refl (c ∷ p) = ground (arith, has_prefix_refl p)

read-insert :
    (d : Memory) (p s q : Text)
    → read_memory (insert p s d) q ≡ (if p == q then contents s else read_memory d q)
read-insert d p s q =
    ap read_of (lookup-insert p q s d) ∙ elim (Bool-cases (p == q)) [ inl e ↦ rw e | inr e ↦ rw e ]

stats-of :
    (o : Option Text) (s : Text) (i : FileInfo)
    → read_of o ≡ contents s
    → stat_of o ≡ some i
    → (i.regular ≡ true) × (i.size ≡ length s)
stats-of none s i h g = ground arith
stats-of (some t) s i h g = ground arith

stat-of :
    (o : Option Text) (s : Text) → read_of o ≡ contents s → (i : FileInfo) × (stat_of o ≡ some i)
stat-of none s h = ground arith
stat-of (some t) s h = (_, refl)

read-created :
    (d : Memory) (start t : Text) (b : Bool)
    → has_slash start ≡ b
    → (created_of b d start).1 ≡ some t
    → (read_memory (created_of b d start).0 t ≡ contents [])
      × (has_prefix (after_last_slash t) start ≡ true)
read-created d start t true e h = ground arith
read-created d start t false e h =
    let same : start ≡ t = ground arith in
    (
      rw (← same) (rw (read-insert d start [] start, ==_refl start)),
      rw (← same) (rw (after_last_slash-plain start e, has_prefix_refl start)),
    )

unlike :
    (start q : Text)
    → has_slash start ≡ false
    → has_prefix (after_last_slash q) start ≡ false
    → (start == q) ≡ false
unlike start q hs h = elim (Bool-cases (start == q)) [
  | inl e ↦
      let same : start ≡ q = (text_eq.beq_iff start q).0 e in
      let whole : after_last_slash q ≡ start =
        ap after_last_slash (sym same) ∙ after_last_slash-plain start hs in
      absurd (ground (arith, whole, has_prefix_refl start, h))
  | inr e ↦ e
]

keeps-created :
    (d : Memory) (start q : Text) (b : Bool)
    → has_slash start ≡ b
    → has_prefix (after_last_slash q) start ≡ false
    → read_memory (created_of b d start).0 q ≡ read_memory d q
keeps-created d start q true e h = refl
keeps-created d start q false e h = rw (read-insert d start [] q, unlike start q e h)

rename-moves :
    (o : Option Text) (d : Memory) (q : Text)
    → (rename_of o d q).1 ≡ true
    → read_memory (rename_of o d q).0 q ≡ read_of o
rename-moves none d q h = ground arith
rename-moves (some s) d q h = rw (read-insert d q s q, ==_refl q)

rename-keeps :
    (o : Option Text) (d : Memory) (q r : Text)
    → (q == r) ≡ false
    → read_memory (rename_of o d q).0 r ≡ read_memory d r
rename-keeps none d q r h = refl
rename-keeps (some s) d q r h = rw (read-insert d q s r, h)

rename-fails :
    (o : Option Text) (d : Memory) (q r : Text)
    → (rename_of o d q).1 ≡ false
    → read_memory (rename_of o d q).0 r ≡ read_memory d r
rename-fails none d q r h = refl
rename-fails (some s) d q r h = ground arith

read-erase :
    (d : Memory) (p q : Text)
    → read_memory (erase p d) q ≡ (if p == q then missing else read_memory d q)
read-erase d p q =
    ap read_of (lookup-erase p q d) ∙ elim (Bool-cases (p == q)) [ inl e ↦ rw e | inr e ↦ rw e ]

remove-removes :
    (o : Option Text) (d : Memory) (p : Text)
    → (remove_of o d p).1 ≡ true
    → read_memory (remove_of o d p).0 p ≡ missing
remove-removes none d p h = ground arith
remove-removes (some s) d p h = rw (read-erase d p p, ==_refl p)

remove-fails :
    (o : Option Text) (d : Memory) (p q : Text)
    → (remove_of o d p).1 ≡ false
    → read_memory (remove_of o d p).0 q ≡ read_memory d q
remove-fails none d p q h = refl
remove-fails (some s) d p q h = ground arith

remove-keeps :
    (o : Option Text) (d : Memory) (p q : Text)
    → (p == q) ≡ false
    → read_memory (remove_of o d p).0 q ≡ read_memory d q
remove-keeps none d p q h = refl
remove-keeps (some s) d p q h = rw (read-erase d p q, h)

pub memory-Laws : OsLaws memory_os
memory-Laws = record {
  stat_reads = λ d p s i h g. stats-of (lookup p d) s i h g;
  stat_finds = λ d p s h. stat-of (lookup p d) s h;
  mkdir_all_keeps = λ d p q. refl;
  create_temp_makes = λ d dir start t h. read-created d start t (has_slash start) refl h;
  create_temp_keeps = λ d dir start q h. keeps-created d start q (has_slash start) refl h;
  chmod_keeps = λ d p mode q. refl;
  write_writes = λ d p s h g. rw (read-insert d p s p, ==_refl p);
  write_keeps = λ d p s q h. rw (read-insert d p s q, h);
  close_keeps = λ d p q. refl;
  rename_moves = λ d p q h. rename-moves (lookup p d) d q h;
  rename_keeps = λ d p q r h g. rename-keeps (lookup p d) d q r g;
  rename_fails = λ d p q r h. rename-fails (lookup p d) d q r h;
  remove_removes = λ d p h. remove-removes (lookup p d) d p h;
  remove_fails = λ d p q h. remove-fails (lookup p d) d p q h;
  remove_keeps = λ d p q h. remove-keeps (lookup p d) d p q h;
}
