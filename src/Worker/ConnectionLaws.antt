-- ===== src/Worker/ConnectionLaws.antt =====
-- worker.go: a connection's rounds and its end on the leader's fleet.
use gotst.Prelude.{
  none, zero, suc, ◌≤◌, false, All, subst, ◌>>=◌, is_empty, not, ◌||◌, ◌⊎◌, ◌∙◌, ℕ, ◌+◌, ◌<◌, ◌≡◌,
  refl, true, false, List, [], ◌∷◌, ◌++◌, Option, some, Text, length, get_elem?, is_some, arith,
  Returns, Returns-bind, Bool-cases, Option-cases, inl, inr,
}
use gotst.Fleet.{Fleet, add_worker, disconnect, exchange, u64_mod, WorkerRequest, WorkerResponse}
use gotst.Fleet.Invariant.{Inv, Left, disconnect-Left}
use gotst.Fleet.Views.{connected_in, holds_in}
use gotst.Fleet.Rounds.{Exchanged, exchange-Exchanged}
use gotst.Fleet.Start.{add_worker-Inv}
use gotst.Worker.Connection.{
  Reject, Served, WorkerHello, Received, end_of_input, decode_failed, received, Round, serve_rounds,
  serve_worker, reject_reason,
}

-- What is relied on of the calls of others: they keep the invariant and the worker, and hand out at
-- most so many lease numbers, if these are left.
abbrev pub KeepsFleet : ℕ → ℕ → (Fleet → Option Fleet) → Type 0
KeepsFleet wi n others =
    (f : Fleet)
    → Inv f
    → is_some (get_elem? f.workers wi) ≡ true
    → f.next_id + n < u64_mod
    → Returns (λ g. Inv g × (is_some (get_elem? g.workers wi) ≡ true) × (g.next_id ≤ f.next_id + n))
        (others f)

-- Each response but the last is neither the end nor an error.
abbrev pub OnlyLastEnds : List WorkerResponse → Type 0
OnlyLastEnds [] = Unit
OnlyLastEnds (r ∷ rs) =
    (is_empty rs ≡ false → (r.done ≡ false) × (is_empty r.error ≡ true)) × OnlyLastEnds rs

-- A fleet with the invariant that has the worker, after the rounds.
abbrev Serves : ℕ → ℕ → Served → Type 0
Serves wi most r =
    Inv r.fleet
    × (is_some (get_elem? r.fleet.workers wi) ≡ true)
    × (r.fleet.next_id ≤ most)
    × OnlyLastEnds r.responses

Received-kinds :
    (m : Received)
    → ((m ≡ end_of_input) ⊎ ((e : Text) × (m ≡ decode_failed e)))
      ⊎ ((now : ℕ) × (req : WorkerRequest) × (m ≡ received now req))
Received-kinds end_of_input = inl (inl refl)
Received-kinds (decode_failed e) = inl (inr (e, refl))
Received-kinds (received now req) = inr (now, req, refl)

-- The lease numbers of so many rounds, with those that others hand out in each.
abbrev pub numbers_of : ℕ → List Round → ℕ
numbers_of n [] = 0
numbers_of n (x ∷ xs) = n + 10 + numbers_of n xs

serve_rounds-Serves :
    (wi n : ℕ) (xs : List Round) (f : Fleet)
    → All (λ (x : Round). KeepsFleet wi n x.others) xs
    → Inv f
    → f.next_id + numbers_of n xs < u64_mod
    → is_some (get_elem? f.workers wi) ≡ true
    → Returns (Serves wi (f.next_id + numbers_of n xs)) (serve_rounds wi xs f)
unfolding serve_rounds
serve_rounds-Serves wi n [] f keeps v room p = (v, p, omega arith, tt)
serve_rounds-Serves wi n (x ∷ xs) f keeps v room p =
    let most = f.next_id + numbers_of n (x ∷ xs) in
    Returns-bind
      (λ g. Inv g × (is_some (get_elem? g.workers wi) ≡ true) × (g.next_id ≤ f.next_id + n))
      (Serves wi most) (x.others f) _ (keeps.0 f v p (omega (arith, room)))
      λ g (gv, gp, gn). elim (Received-kinds x.message) [
        | inl (inl e) ↦ rw (e) (gv, gp, omega (arith, gn), tt)
        | inl (inr (err, e)) ↦ rw (e) (gv, gp, omega (arith, gn), tt)
        | inr (now, req, e) ↦ rw (e) (
            Returns-bind (Exchanged now wi req g) (Serves wi most) (exchange now wi req g) _
              (exchange-Exchanged now wi req g gv (omega (arith, gn, room)) gp)
              λ r y.
                let last : OnlyLastEnds (r.0 ∷ []) = ((λ h. absurd (ground (arith, h))), tt) in
                let small : r.1.next_id ≤ most = omega (arith, gn, y.ids) in
                elim (Option-cases x.encode_error) [
                  | inr (err, c) ↦ rw (c) (y.inv, y.present wi ∙ gp, small, last)
                  | inl c ↦ elim (Bool-cases (r.0.done || not (is_empty r.0.error))) [
                    | inl h ↦ rw (c, h) (y.inv, y.present wi ∙ gp, small, last)
                    | inr h ↦
                        rw (c, h)
                          (Returns-bind (Serves wi (r.1.next_id + numbers_of n xs)) (Serves wi most)
                            (serve_rounds wi xs r.1) _
                            (serve_rounds-Serves wi n xs r.1 keeps.1 y.inv
                              (omega (arith, gn, y.ids, room)) (y.present wi ∙ gp))
                            λ q (qv, qp, qn, qs). (
                              qv,
                              qp,
                              omega (arith, qn, gn, y.ids),
                              ((λ z. ground (arith, h)), qs),
                            ))
                  ]
                ])
      ]

get_elem?-last :
    {A : Type 0} (xs : List A) (x : A) → is_some (get_elem? (xs ++ x ∷ []) (length xs)) ≡ true
unfolding get_elem?
get_elem?-last [] x = refl
get_elem?-last (y ∷ xs) x = get_elem?-last xs x

get_elem?-more :
    {A : Type 0} (xs : List A) (x : A) (i : ℕ)
    → is_some (get_elem? xs i) ≡ true
    → is_some (get_elem? (xs ++ x ∷ []) i) ≡ true
unfolding get_elem?
get_elem?-more [] x i h = ground arith
get_elem?-more (y ∷ xs) x zero h = refl
get_elem?-more (y ∷ xs) x (suc i) h = get_elem?-more xs x i h

-- A worker stays when another joins.
pub present-add_worker :
    (f : Fleet) (now : ℕ) (name : Text) (slots wi : ℕ)
    → is_some (get_elem? f.workers wi) ≡ true
    → is_some (get_elem? (add_worker now name slots false f).workers wi) ≡ true
unfolding add_worker
present-add_worker f now name slots wi h = get_elem?-more f.workers _ wi h

present-append :
    (f : Fleet) (now : ℕ) (name : Text) (slots : ℕ)
    → is_some (get_elem? (add_worker now name slots false f).workers (length f.workers)) ≡ true
unfolding add_worker
present-append f now name slots = get_elem?-last f.workers _

same_next :
    (f : Fleet) (now : ℕ) (name : Text) (slots : ℕ)
    → (add_worker now name slots false f).next_id ≡ f.next_id
unfolding add_worker
same_next f now name slots = refl

-- What a helper's connection leaves behind, refused or not: the responses and the fleet.
abbrev pub Ends : Option Reject → Fleet → List WorkerResponse × Fleet → Type 0
Ends (some reason) f r = r ≡ ([], f)
Ends none f r =
    Inv r.1
    × (is_some (get_elem? r.1.workers (length f.workers)) ≡ true)
    × (connected_in r.1.workers (length f.workers) ≡ false)
    × ((k : ℕ) → holds_in r.1.workers (length f.workers) k ≡ false)
    × OnlyLastEnds r.0

-- A helper that is refused leaves the fleet as it is. Any other connection, with calls of others
-- that keep the invariant and the helper before each of its steps and room for the lease numbers
-- that all hand out, does not fail: it keeps the invariant, leaves the helper without a connection
-- and without leases, and no response but the last is the end or an error.
pub serve_worker-Ends :
    (now later n : ℕ) (hello : WorkerHello) (config_error : Option Text) (rounds : List Round)
    (others : Fleet → Option Fleet) (f : Fleet)
    → All (λ (x : Round). KeepsFleet (length f.workers) n x.others) rounds
    → KeepsFleet (length f.workers) n others
    → Inv f
    → f.next_id + numbers_of n rounds + n < u64_mod
    → Returns
        (Ends (reject_reason f.server.flags hello) f)
        (serve_worker now later hello config_error rounds others f)
unfolding serve_worker
serve_worker-Ends now later n hello config_error rounds others f keeps last v room =
    let wi = length f.workers in
    let most = f.next_id + numbers_of n rounds in
    let joined = add_worker now hello.name hello.slots false f in
    let jv : Inv joined = add_worker-Inv now hello.name hello.slots false f v in
    let jp = present-append f now hello.name hello.slots in
    let same = same_next f now hello.name hello.slots in
    let end_connection : (m : Option Served)
        → Returns (Serves wi most) m
        → Returns (Ends none f) (
            m >>= λ r. others r.fleet >>= λ g.
            disconnect later wi r.error g >>= λ left. some (r.responses, left)) =
      λ m h. Returns-bind (Serves wi most) (Ends none f) m _ h (λ r (rv, rp, rn, rs).
        Returns-bind
          (λ g.
            Inv g × (is_some (get_elem? g.workers wi) ≡ true) × (g.next_id ≤ r.fleet.next_id + n))
          (Ends none f) (others r.fleet) _ (last r.fleet rv rp (omega (arith, rn, room)))
          (λ g (gv, gp, gn).
            Returns-bind (Left wi g) (Ends none f) (disconnect later wi r.error g) _
              (disconnect-Left later wi r.error g gv gp)
              (λ left l. (l.inv, l.present, l.gone, l.unheld, rs)))) in
    elim (Option-cases (reject_reason f.server.flags hello)) [
      | inr (reason, e) ↦ rw (e, serve_worker) refl
      | inl e ↦ elim (Option-cases config_error) [
        | inr (err, g) ↦
            rw (e, g, serve_worker)
              (end_connection (some (record { error = some err; responses = []; fleet = joined }))
                (jv, jp, omega (arith, same), tt))
        | inl g ↦
            rw (e, g, serve_worker)
              (end_connection (serve_rounds wi rounds joined) (
                subst
                  (λ k.
                    Returns (Serves wi (k + numbers_of n rounds)) (serve_rounds wi rounds joined))
                  same
                  (serve_rounds-Serves wi n rounds joined keeps jv (omega (arith, room, same)) jp)))
      ]
    ]
