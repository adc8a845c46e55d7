-- ===== src/LocalCache/WriteLaws.antt =====
-- localcache.go: writeCacheFile.
use gotst.Prelude.{
  inr, inl, ◌∙◌, Bool-cases, ap, ℕ, ◌≡◌, refl, true, false, [], Option, none, some, Text, text_eq,
  ◌==◌, arith,
}
use gotst.Go.Strings.{has_prefix}
use gotst.Go.Paths.{after_last_slash}
use gotst.Files.{temp-other, checked, continue, Read, missing, unreadable, contents, Os, OsLaws}
use gotst.LocalCache.Store.{temp_start, holds, install, clean_up, write_cache_file}

Read-cases :
    (r : Read) (bytes : Text)
    → elim r [ missing ↦ false | unreadable ↦ false | contents old ↦ old == bytes ] ≡ true
    → r ≡ contents bytes
Read-cases missing bytes h = ground arith
Read-cases unreadable bytes h = ground arith
Read-cases (contents old) bytes h = ap contents ((text_eq.beq_iff old bytes).0 h)

holds→contents :
    {D : Type 0} (os : Os D) (d : D) (path bytes : Text)
    → holds os d path bytes ≡ true
    → os.read_file d path ≡ contents bytes
holds→contents os d path bytes h = Read-cases (os.read_file d path) bytes h

module _ {D : Type 0} (os : Os D) (laws : OsLaws os) (tmp path bytes : Text) (mode : ℕ)
    (d : D) where
  abbrev after_chmod : D
  after_chmod = (os.chmod d tmp mode).0

  abbrev after_write : D
  after_write = (os.write after_chmod tmp bytes).0

  abbrev after_close : D
  after_close = (os.close after_write tmp).0

  install-keeps :
      (q : Text)
      → (tmp == q) ≡ false
      → (path == q) ≡ false
      → os.read_file (install os tmp path bytes mode d).0 q ≡ os.read_file d q
  unfolding install
  install-keeps q ht hp = ground (
    arith,
    laws.chmod_keeps d tmp mode q,
    laws.write_keeps after_chmod tmp bytes q ht,
    laws.close_keeps after_write tmp q,
    laws.rename_keeps after_close tmp path q ht hp,
  )

  install-writes :
      os.read_file d tmp ≡ contents []
      → (install os tmp path bytes mode d).1 ≡ some tt
      → os.read_file (install os tmp path bytes mode d).0 path ≡ contents bytes
  unfolding install
  install-writes he h = ground (
    arith,
    laws.chmod_keeps d tmp mode tmp,
    laws.write_writes after_chmod tmp bytes,
    laws.close_keeps after_write tmp tmp,
    laws.rename_moves after_close tmp path,
    holds→contents os (os.rename after_close tmp path).0 path bytes,
  )

  install-fails :
      (tmp == path) ≡ false
      → (install os tmp path bytes mode d).1 ≡ none
      → os.read_file (install os tmp path bytes mode d).0 path ≡ os.read_file d path
  unfolding install
  install-fails ht h = ground (
    arith,
    laws.chmod_keeps d tmp mode path,
    laws.write_keeps after_chmod tmp bytes path ht,
    laws.close_keeps after_write tmp path,
    laws.rename_fails after_close tmp path path,
  )

module _ {D : Type 0} (os : Os D) (path bytes : Text) where
  -- What writing a file does to the disk `d`.
  pub record Written (d : D) (r : D × Option (Unit {0})) : Type 0 where
    pub on_success : r.1 ≡ some tt → os.read_file r.0 path ≡ contents bytes
    pub on_failure : r.1 ≡ none → os.read_file r.0 path ≡ os.read_file d path
    pub others :
        (q : Text)
        → (path == q) ≡ false
        → has_prefix (after_last_slash q) temp_start ≡ false
        → os.read_file r.0 q ≡ os.read_file d q

  module _ (laws : OsLaws os) where
    Written-before :
        (d e : D) (r : D × Option (Unit {0}))
        → (has_prefix (after_last_slash path) temp_start ≡ false)
        → ((q : Text)
            → has_prefix (after_last_slash q) temp_start ≡ false
            → os.read_file e q ≡ os.read_file d q)
        → Written e r
        → Written d r
    Written-before d e r hp same w = record {
      on_success = w.on_success;
      on_failure = λ h. w.on_failure h ∙ same path hp;
      others = λ q ne nt. w.others q ne nt ∙ same q nt;
    }

    clean_up-install :
        (dir tmp : Text) (mode : ℕ) (d : D)
        → (tmp == path) ≡ false
        → has_prefix (after_last_slash tmp) temp_start ≡ true
        → os.read_file d tmp ≡ contents []
        → Written d (clean_up os tmp (install os tmp path bytes mode) d)
    unfolding clean_up
    clean_up-install dir tmp mode d ne ht he =
        let r = install os tmp path bytes mode d in
        record {
          on_success = λ h. ground (
            arith,
            laws.close_keeps r.0 tmp path,
            install-writes os laws tmp path bytes mode d he,
          );
          on_failure = λ h. ground (
            arith,
            laws.close_keeps r.0 tmp path,
            laws.remove_keeps (os.close r.0 tmp).0 tmp path ne,
            install-fails os laws tmp path bytes mode d ne,
          );
          others = λ q np nt. ground (
            arith,
            laws.close_keeps r.0 tmp q,
            laws.remove_keeps (os.close r.0 tmp).0 tmp q (temp-other temp_start tmp q ht nt),
            install-keeps os laws tmp path bytes mode d q (temp-other temp_start tmp q ht nt) np,
          );
        }

    Written-same :
        (d e : D)
        → ((q : Text)
            → has_prefix (after_last_slash q) temp_start ≡ false
            → os.read_file e q ≡ os.read_file d q)
        → has_prefix (after_last_slash path) temp_start ≡ false
        → Written d (e, none)
    Written-same d e same hp = record {
      on_success = λ h. ground arith;
      on_failure = λ h. same path hp;
      others = λ q np nt. same q nt;
    }

    Written-continue :
        {A : Type 0} (d : D) (r : D × Option A) (k : A → D → D × Option (Unit {0}))
        → (r.1 ≡ none → Written d (r.0, none))
        → ((a : A) → r.1 ≡ some a → Written d (k a r.0))
        → Written d (continue r k)
    Written-continue d (e, none) k stop go = stop refl
    Written-continue d (e, some a) k stop go = go a refl

    pub write_cache_file-Written :
        (dir : Text) (mode : ℕ) (d : D)
        → has_prefix (after_last_slash path) temp_start ≡ false
        → Written d (write_cache_file os dir path bytes mode d)
    unfolding write_cache_file
    write_cache_file-Written dir mode d hp =
        let made = (os.mkdir_all d dir).0 in
        let temp = os.create_temp made dir temp_start in
        let same_made : (q : Text)
            → has_prefix (after_last_slash q) temp_start ≡ false
            → os.read_file made q ≡ os.read_file d q =
          λ q nt. laws.mkdir_all_keeps d dir q in
        let same_temp : (q : Text)
            → has_prefix (after_last_slash q) temp_start ≡ false
            → os.read_file temp.0 q ≡ os.read_file d q =
          λ q nt. laws.create_temp_keeps made dir temp_start q nt ∙ same_made q nt in
        elim (Bool-cases (holds os d path bytes)) [
          | inl e ↦ rw (e) (record {
            on_success = λ h. holds→contents os d path bytes e;
            on_failure = λ h. ground arith;
            others = λ q np nt. refl;
          })
          | inr e ↦ rw (e) (
              Written-continue d (checked (λ x. os.mkdir_all x dir) d) _
                (λ h. Written-same d made same_made hp)
                λ u hu.
                  Written-continue d temp _ (λ h. Written-same d temp.0 same_temp hp)
                    λ tmp ht.
                      let made_temp = laws.create_temp_makes made dir temp_start tmp ht in
                      Written-before d temp.0 _ hp same_temp (
                        clean_up-install dir tmp mode temp.0
                          (temp-other temp_start tmp path made_temp.1 hp) made_temp.1 made_temp.0))
        ]
