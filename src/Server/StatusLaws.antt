-- ===== src/Server/StatusLaws.antt =====
-- gotst.go: writes to the status of one test, and the tests that are there.
use gotst.Prelude.{
  ap, Returns-map, false, ==_refl, ℕ, ◌≡◌, ◌∙◌, refl, Bool, true, List, Option, some, arith, Text,
  text_eq, text_beq_iff, is_some, insert, lookup-insert, Returns, Returns-bind, Returns-self, ◌>>=◌,
}
use gotst.Server.Data.{Server, PackageStatus, TestStatus, TestTask, FailInfo}
use gotst.Server.Status.{finished_test, find_test, put_test, finish_test_locked}

-- Whether a test is there.
unfoldable pub has_test : Server → TestTask → Bool
has_test s task = is_some (find_test s task)

pub put_test-has_test :
    (s : Server) (task x : TestTask) (ps ps' : PackageStatus) (ts ts' : TestStatus)
    → find_test s task ≡ some (ps, ts)
    → ps'.tests ≡ ps.tests
    → has_test s x ≡ true
    → has_test (put_test s task ps' ts') x ≡ true
unfolding has_test find_test put_test
put_test-has_test s task x ps ps' ts ts' e same h = ground (
  arith,
  lookup-insert task.bin.pkg x.bin.pkg (record ps' { tests = insert task.test ts' ps'.tests })
      s.pkgs,
  lookup-insert task.test x.test ts' ps'.tests,
  text_beq_iff task.bin.pkg x.bin.pkg,
)

-- `t` has all the tests of `s`, and differs from it in no setting.
pub record Keeps (s t : Server) : Type 0 where
  pub tests : (x : TestTask) → has_test s x ≡ true → has_test t x ≡ true
  pub flags : t.flags ≡ s.flags
  pub profile : t.profile ≡ s.profile
  pub cancelled : t.cancelled ≡ s.cancelled

pub Keeps-refl : (s : Server) → Keeps s s
Keeps-refl s = record { tests = λ x h. h; flags = refl; profile = refl; cancelled = refl }

pub Keeps-trans : (s t u : Server) → Keeps s t → Keeps t u → Keeps s u
Keeps-trans s t u a b = record {
  tests = λ x h. b.tests x (a.tests x h);
  flags = b.flags ∙ a.flags;
  profile = b.profile ∙ a.profile;
  cancelled = b.cancelled ∙ a.cancelled;
}

pub put_test-Keeps :
    (s : Server) (task : TestTask) (ps ps' : PackageStatus) (ts ts' : TestStatus)
    → find_test s task ≡ some (ps, ts)
    → ps'.tests ≡ ps.tests
    → Keeps s (put_test s task ps' ts')
unfolding put_test
put_test-Keeps s task ps ps' ts ts' e same = record {
  tests = λ x h. put_test-has_test s task x ps ps' ts ts' e same h;
  flags = refl;
  profile = refl;
  cancelled = refl;
}

find_test-Returns :
    (s : Server) (task : TestTask)
    → has_test s task ≡ true
    → Returns (λ r. find_test s task ≡ some r) (find_test s task)
unfolding has_test
find_test-Returns s task h = Returns-self (find_test s task) h

pub with_test :
    {B : Type 0} (Q : B → Type 0) (s : Server) (task : TestTask)
    (f : PackageStatus × TestStatus → Option B)
    → has_test s task ≡ true
    → ((ps : PackageStatus) (ts : TestStatus)
        → find_test s task ≡ some (ps, ts)
        → Returns Q (f (ps, ts)))
    → Returns Q (find_test s task >>= f)
with_test Q s task f h k =
    Returns-bind (λ r. find_test s task ≡ some r) Q (find_test s task) f
      (find_test-Returns s task h) (λ r e. k r.0 r.1 e)

-- Finishing a test that is there does not fail, and keeps every test.
pub finish_test_locked-Keeps :
    (s : Server) (task : TestTask) (passed : Bool) (d : ℕ) (failures : List FailInfo)
    (error : Option Text) (cached : Bool) (now : ℕ)
    → has_test s task ≡ true
    → Returns (Keeps s) (finish_test_locked s task passed d failures error cached now)
unfolding finish_test_locked
finish_test_locked-Keeps s task passed d failures error cached now h =
    with_test (Keeps s) s task _ h (λ ps ts e. put_test-Keeps s task ps _ ts _ e (ground arith))

-- What is put as the status of a test is found.
pub find_test-put_test :
    (s : Server) (task : TestTask) (ps : PackageStatus) (ts : TestStatus)
    → Returns (λ r. r.1 ≡ ts) (find_test (put_test s task ps ts) task)
unfolding find_test put_test
find_test-put_test s task ps ts =
    rw
      (
        lookup-insert task.bin.pkg task.bin.pkg (record ps { tests = insert task.test ts ps.tests })
            s.pkgs,
        ==_refl task.bin.pkg,
        lookup-insert task.test task.test ts ps.tests,
        ==_refl task.test,
      )
      refl

-- The test is over, with its result.
abbrev pub Finished : TestTask → Bool → Bool → Server → Type 0
Finished task passed cached s =
    Returns
      (λ (r : PackageStatus × TestStatus).
        (r.1.done ≡ true) × (r.1.running ≡ false) × (r.1.passed ≡ passed) × (r.1.cached ≡ cached))
      (find_test s task)

-- Finishing a test that is there does not fail, keeps every test, and gives the test its result.
pub finish_test_locked-Finished :
    (s : Server) (task : TestTask) (passed : Bool) (d : ℕ) (failures : List FailInfo)
    (error : Option Text) (cached : Bool) (now : ℕ)
    → has_test s task ≡ true
    → Returns
        (λ u. Keeps s u × Finished task passed cached u)
        (finish_test_locked s task passed d failures error cached now)
unfolding finish_test_locked finished_test
finish_test_locked-Finished s task passed d failures error cached now h =
    with_test (λ u. Keeps s u × Finished task passed cached u) s task _ h
      (λ ps ts e. (
        put_test-Keeps s task ps _ ts _ e (ground arith),
        Returns-map (λ r. r.1 ≡ finished_test ts passed d failures cached now) _ _
            (find_test-put_test s task _ (finished_test ts passed d failures cached now))
            (λ r q. (
              ap (λ (t : TestStatus). t.done) q,
              ap (λ (t : TestStatus). t.running) q,
              ap (λ (t : TestStatus). t.passed) q,
              ap (λ (t : TestStatus). t.cached) q,
            )),
      ))
