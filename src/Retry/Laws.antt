-- ===== src/Retry/Laws.antt =====
-- gotst.go: the loops of runTest over repetitions and retries.
use gotst.Prelude.{
  ℕ, zero, suc, ◌+◌, ◌*◌, ◌≤◌, ◌<◌, ◌≡◌, refl, ap, ◌∙◌, subst, ◌⊎◌, true, List, [], ◌∷◌, some,
  arith, Text, eqb, eqb_iff, Returns, Returns-bind, Returns-map, Bool-cases, inl, inr,
}
use gotst.Server.{Server, TestTask}
use gotst.Server.StatusLaws.{has_test, Keeps, Keeps-refl, Keeps-trans, put_test-Keeps, with_test}
use gotst.Retry.Data.{
  AttemptEnd, attempt_passed, attempt_cancelled, attempt_failed, Attempt, Tries,
  record_test_attempt, record_test_attrs,
}
use gotst.Retry.Loop.{
  note, LoopEnd, loop_passed, loop_cancelled, loop_failed, add_failure, retry_loop, repeat_loop,
}

abbrev pub end_tries : LoopEnd → Tries
end_tries (loop_passed t) = t
end_tries (loop_cancelled t) = t
end_tries (loop_failed t e) = t

abbrev pub IsFailure : AttemptEnd → Type 0
IsFailure attempt_passed = ⊥
IsFailure attempt_cancelled = ⊥
IsFailure (attempt_failed e) = Unit

-- After the bookkeeping of one attempt.
record Noted (t n : Tries) : Type 0 where
  keeps : Keeps t.server n.server
  attempts : n.attempts ≡ t.attempts + 1

record_test_attempt-Keeps :
    (task : TestTask) (s : Server)
    → has_test s task ≡ true
    → Returns (Keeps s) (record_test_attempt task s)
unfolding record_test_attempt
record_test_attempt-Keeps task s h =
    with_test (Keeps s) s task _ h (λ ps ts e. put_test-Keeps s task ps ps ts _ e refl)

record_test_attrs-Keeps :
    (task : TestTask) (attrs : List (Text × Text)) (s : Server)
    → has_test s task ≡ true
    → Returns (Keeps s) (record_test_attrs task attrs s)
unfolding record_test_attrs
record_test_attrs-Keeps task [] s h = Keeps-refl s
record_test_attrs-Keeps task (a ∷ attrs) s h =
    with_test (Keeps s) s task _ h (λ ps ts e. put_test-Keeps s task ps ps ts _ e refl)

note-Noted :
    (task : TestTask) (a : Attempt) (t : Tries)
    → has_test t.server task ≡ true
    → Returns (Noted t) (note task a t)
unfolding note record_test_attrs record_test_attempt
note-Noted task a t h =
    Returns-bind (Keeps t.server) (Noted t) (record_test_attrs task a.attrs t.server) _
      (record_test_attrs-Keeps task a.attrs t.server h)
      (λ s k.
        Returns-bind (Keeps s) (Noted t) (record_test_attempt task s) _
          (record_test_attempt-Keeps task s (k.tests task h))
          (λ u q. record { keeps = Keeps-trans t.server s u k q; attempts = refl }))

AttemptEnd-cases :
    (x : AttemptEnd)
    → (x ≡ attempt_passed) ⊎ (x ≡ attempt_cancelled) ⊎ ((e : Text) × (x ≡ attempt_failed e))
AttemptEnd-cases attempt_passed = inl refl
AttemptEnd-cases attempt_cancelled = inr (inl refl)
AttemptEnd-cases (attempt_failed e) = inr (inr (e, refl))

module _ (task : TestTask) (test_count : ℕ) (attempt : ℕ → ℕ → Attempt) (repetition : ℕ) where
  -- What a loop over the retries `retry` to `retry + left` shows.
  abbrev pub Verdict : ℕ → ℕ → LoopEnd → Type 0
  Verdict left retry (loop_passed t) =
      (k : ℕ) × (k ≤ left) × ((attempt repetition (retry + k)).result ≡ attempt_passed)
  Verdict left retry (loop_cancelled t) =
      (k : ℕ) × (k ≤ left) × ((attempt repetition (retry + k)).result ≡ attempt_cancelled)
  Verdict left retry (loop_failed t e) =
      (k : ℕ) → k ≤ left → IsFailure (attempt repetition (retry + k)).result

  here :
      (retry : ℕ) (x : AttemptEnd)
      → (attempt repetition retry).result ≡ x
      → (attempt repetition (retry + 0)).result ≡ x
  here retry x e = ap (λ i. (attempt repetition i).result) (omega arith) ∙ e

  Verdict-later :
      (left retry : ℕ) (r : LoopEnd)
      → IsFailure (attempt repetition retry).result
      → Verdict left (suc retry) r
      → Verdict (suc left) retry r
  Verdict-later left retry (loop_passed t) f (k, le, e) =
      (suc k, omega (arith, le), ap (λ i. (attempt repetition i).result) (omega arith) ∙ e)
  Verdict-later left retry (loop_cancelled t) f (k, le, e) =
      (suc k, omega (arith, le), ap (λ i. (attempt repetition i).result) (omega arith) ∙ e)
  Verdict-later left retry (loop_failed t m) f v = λ k le. failed_at k le
    where
      failed_at : (k : ℕ) → k ≤ suc left → IsFailure (attempt repetition (retry + k)).result
      failed_at zero le = subst (λ i. IsFailure (attempt repetition i).result) (omega arith) f
      failed_at (suc k) le =
          subst (λ i. IsFailure (attempt repetition i).result) (omega arith) (v k (omega arith))

  pub record Ran (left retry : ℕ) (t : Tries) (r : LoopEnd) : Type 0 where
    pub keeps : Keeps t.server (end_tries r).server
    pub least : t.attempts < (end_tries r).attempts
    pub most : (end_tries r).attempts ≤ t.attempts + suc left
    pub verdict : Verdict left retry r

  pub retry_loop-Ran :
      (left retry : ℕ) (t : Tries)
      → has_test t.server task ≡ true
      → Returns (Ran left retry t) (retry_loop task test_count attempt repetition left retry t)
  unfolding retry_loop
  retry_loop-Ran zero retry t h =
      Returns-bind (Noted t) (Ran zero retry t) (note task (attempt repetition retry) t) _
        (note-Noted task (attempt repetition retry) t h)
        (λ n q. elim (AttemptEnd-cases (attempt repetition retry).result) [
          | inl e ↦ rw e (record {
            keeps = q.keeps;
            least = omega (arith, q.attempts);
            most = omega (arith, q.attempts);
            verdict = (0, omega arith, here retry _ e);
          })
          | inr (inl e) ↦ rw e (record {
            keeps = q.keeps;
            least = omega (arith, q.attempts);
            most = omega (arith, q.attempts);
            verdict = (0, omega arith, here retry _ e);
          })
          | inr (inr (m, e)) ↦ rw e (record {
            keeps = q.keeps;
            least = omega (arith, q.attempts);
            most = omega (arith, q.attempts);
            verdict = λ k le.
                let z : retry ≡ retry + k = omega arith in
                subst (λ i. IsFailure (attempt repetition i).result) z (rw e tt);
          })
        ])
  retry_loop-Ran (suc left) retry t h =
      Returns-bind (Noted t) (Ran (suc left) retry t) (note task (attempt repetition retry) t) _
        (note-Noted task (attempt repetition retry) t h)
        (λ n q. elim (AttemptEnd-cases (attempt repetition retry).result) [
          | inl e ↦ rw e (record {
            keeps = q.keeps;
            least = omega (arith, q.attempts);
            most = omega (arith, q.attempts);
            verdict = (0, omega arith, here retry _ e);
          })
          | inr (inl e) ↦ rw e (record {
            keeps = q.keeps;
            least = omega (arith, q.attempts);
            most = omega (arith, q.attempts);
            verdict = (0, omega arith, here retry _ e);
          })
          | inr (inr (m, e)) ↦ rw e (
              Returns-map (Ran left (suc retry) (add_failure (attempt repetition retry) n))
                (Ran (suc left) retry t) _
                (retry_loop-Ran left (suc retry) (add_failure (attempt repetition retry) n)
                  (q.keeps.tests task h))
                (λ r p. record {
                  keeps = Keeps-trans t.server n.server (end_tries r).server q.keeps p.keeps;
                  least = omega (arith, p.least, q.attempts);
                  most = omega (arith, p.most, q.attempts);
                  verdict = Verdict-later left retry r (rw e tt) p.verdict;
                }))
        ])

-- What the loops over the repetitions `repetition` to `repetition + left - 1` show.
module _ (task : TestTask) (test_count max_retries : ℕ) (attempt : ℕ → ℕ → Attempt) where
  -- A repetition that passes within the retries.
  abbrev pub Passes : ℕ → Type 0
  Passes i = (k : ℕ) × (k ≤ max_retries) × ((attempt i k).result ≡ attempt_passed)

  abbrev pub Outcome : ℕ → ℕ → LoopEnd → Type 0
  Outcome left repetition (loop_passed t) =
      (i : ℕ) → repetition ≤ i → i < repetition + left → Passes i
  Outcome left repetition (loop_cancelled t) =
      (i k : ℕ) × (repetition ≤ i)
      × (i < repetition + left)
      × (k ≤ max_retries)
      × ((attempt i k).result ≡ attempt_cancelled)
  Outcome left repetition (loop_failed t e) =
      (i : ℕ) × (repetition ≤ i)
      × (i < repetition + left)
      × ((k : ℕ) → k ≤ max_retries → IsFailure (attempt i k).result)

  Outcome-later :
      (left repetition : ℕ) (r : LoopEnd)
      → Passes repetition
      → Outcome left (suc repetition) r
      → Outcome (suc left) repetition r
  Outcome-later left repetition (loop_cancelled t) p (i, k, le, lt, m, o) =
      (i, k, omega (arith, le), omega (arith, lt), m, o)
  Outcome-later left repetition (loop_failed t e) p (i, le, lt, o) =
      (i, omega (arith, le), omega (arith, lt), o)
  Outcome-later left repetition (loop_passed t) p o = λ i le lt.
      elim (Bool-cases (eqb repetition i)) [
        | inl e ↦ let same : repetition ≡ i = (eqb_iff repetition i).0 e in subst Passes same p
        | inr e ↦ o i (ground (arith, eqb_iff repetition i)) (omega (arith, lt))
      ]

  pub record Repeated (left repetition : ℕ) (t : Tries) (r : LoopEnd) : Type 0 where
    pub keeps : Keeps t.server (end_tries r).server
    pub most : (end_tries r).attempts ≤ t.attempts + left * suc max_retries
    pub outcome : Outcome left repetition r

  -- For a test that the server has, the loops of runTest make at most one attempt more than the
  -- retries for each repetition; they end with a pass only if each repetition has a passing
  -- attempt, with a failure only if all attempts of a repetition failed, and with a cancellation
  -- only if an attempt was cancelled.
  pub repeat_loop-Repeated :
      (left repetition : ℕ) (t : Tries)
      → has_test t.server task ≡ true
      → Returns
          (Repeated left repetition t)
          (repeat_loop task test_count max_retries attempt left repetition t)
  unfolding repeat_loop
  repeat_loop-Repeated zero repetition t h = record {
    keeps = Keeps-refl t.server;
    most = omega arith;
    outcome = λ i le lt. absurd (omega (arith, le, lt));
  }
  repeat_loop-Repeated (suc left) repetition t h =
      Returns-bind (Ran task test_count attempt repetition max_retries 0 t)
        (Repeated (suc left) repetition t) _ _
        (retry_loop-Ran task test_count attempt repetition max_retries 0 t h)
        (λ r.
          elim r
            as (λ u.
              Ran task test_count attempt repetition max_retries 0 t u
              → Returns (Repeated (suc left) repetition t) (elim u [
                | loop_passed n ↦
                    repeat_loop task test_count max_retries attempt left (suc repetition) n
                | loop_cancelled n ↦ some (loop_cancelled n)
                | loop_failed n m ↦ some (loop_failed n m)
              ])) [
                | loop_cancelled n ↦ λ q.
                    let (k, le, e) = q.verdict in
                    record {
                      keeps = q.keeps;
                      most = grind (arith, q.most);
                      outcome = (
                        repetition,
                        k,
                        omega arith,
                        omega arith,
                        le,
                        ap (λ j. (attempt repetition j).result) (omega arith) ∙ e,
                      );
                    }
                | loop_failed n m ↦ λ q. record {
                  keeps = q.keeps;
                  most = grind (arith, q.most);
                  outcome = (
                    repetition,
                    omega arith,
                    omega arith,
                    (λ k le.
                        subst (λ j. IsFailure (attempt repetition j).result) (omega arith)
                          (q.verdict k le)),
                  );
                }
                | loop_passed n ↦ λ q.
                    Returns-map (Repeated left (suc repetition) n)
                      (Repeated (suc left) repetition t) _
                      (repeat_loop-Repeated left (suc repetition) n (q.keeps.tests task h))
                      (λ u p. record {
                        keeps = Keeps-trans t.server n.server (end_tries u).server q.keeps p.keeps;
                        most = grind (arith, q.most, p.most);
                        outcome =
                            Outcome-later left repetition u
                              (let (k, le, e) = q.verdict in
                                (k, le, ap (λ j. (attempt repetition j).result) (omega arith) ∙ e))
                              p.outcome;
                      })
              ])
