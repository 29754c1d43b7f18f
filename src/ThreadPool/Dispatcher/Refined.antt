-- ===== src/ThreadPool/Dispatcher/Refined.antt =====
-- `PriorityDispatcher` of crates/backends/backend_common/src/thread_pool.rs against its line.
use mathlib.Core.List.{Perm, perm_append_singleton}
use mathlib.Core.List.Perm
use mathlib.Core.Bool.{Bool-set}
use herbert_rs.Prelude.{
  ℕ, ◌+◌, ◌^◌, ◌≤◌, ◌<◌, ◌≡◌, refl, sym, ap, subst, inl, inr, false, some, List, [], ◌∷◌, length,
  All, All_imp, arith, Bool-cases,
}
use herbert_rs.Prelude.Perms.{All-Perm}
use herbert_rs.ThreadPool.Dispatcher.{
  DispatchState, dispatcher_new, acquire, is_served, wake, Event, dispatch, run,
}
use herbert_rs.ThreadPool.Dispatcher.Best.{
  NotAfter, NotAfter-antisym, NotAfter-refl, Released, freed, served, release-Released,
}
use herbert_rs.ThreadPool.Dispatcher.Queue.{
  Queue, empty, serve, step, steps, Sorted, Refines, enqueue-Perm, enqueue-Sorted, All-enqueue,
}

acquire-Refines :
    (priority : ℕ) {s : DispatchState} {q : Queue}
    → q.arrivals + 1 < 2 ^ 64
    → Refines s q
    → ((acquire priority s).1 ≡ (step (Event.arrives priority) q).1)
      × Refines (acquire priority s).0 (step (Event.arrives priority) q).0
unfolding acquire step
acquire-Refines priority {s} {q} small r = elim (Bool-cases q.busy) [
  | inl e ↦
      simp (r.active, e, r.ticket)
        (
          refl,
          record {
            active = refl;
            ticket = omega arith;
            serving = r.serving;
            same = Perm.trans (Perm.append_right ((priority, q.arrivals) ∷ []) r.same) (
                Perm.trans (perm_append_singleton (priority, q.arrivals) q.line)
                  (enqueue-Perm (priority, q.arrivals) q.line));
            sorted = enqueue-Sorted (priority, q.arrivals) q.line r.fresh r.sorted;
            fresh =
                All-enqueue (λ v. v.1 < q.arrivals + 1) (priority, q.arrivals) q.line (omega arith)
                  (All_imp _ _ q.line (λ w h. omega arith) r.fresh);
          },
        )
  | inr e ↦
      simp (r.active, e)
        (
          refl,
          record {
            active = refl;
            ticket = r.ticket;
            serving = r.serving;
            same = r.same;
            sorted = r.sorted;
            fresh = r.fresh;
          },
        )
]

wake-Refines :
    (t : ℕ) {s : DispatchState} {q : Queue}
    → Refines s q
    → ((wake t s).1 ≡ (step (Event.wakes t) q).1) × Refines (wake t s).0 (step (Event.wakes t) q).0
unfolding wake step
wake-Refines t {s} {q} r = elim (Bool-cases (is_served q.turn t)) [
  | inl e ↦
      simp (r.serving, e)
        (
          refl,
          record {
            active = r.active;
            ticket = r.ticket;
            serving = refl;
            same = r.same;
            sorted = r.sorted;
            fresh = r.fresh;
          },
        )
  | inr e ↦ simp (r.serving, e) (refl, r)
]

All_NotAfter-Perm :
    (w : ℕ × ℕ) {xs ys : List (ℕ × ℕ)} → Perm xs ys → All (NotAfter w) xs → All (NotAfter w) ys
All_NotAfter-Perm w p = All-Perm (NotAfter w) (λ v. Bool-set _ _) p

-- A first waiter, in two orders of the same waiters, is the same waiter.
first_unique :
    (w v : ℕ × ℕ) (rest line waiters : List (ℕ × ℕ))
    → Perm (w ∷ rest) waiters
    → Perm waiters (v ∷ line)
    → All (NotAfter w) waiters
    → Sorted (v ∷ line)
    → w ≡ v
first_unique w v rest line waiters p q first sorted =
    NotAfter-antisym w v (All_NotAfter-Perm w q first).0
      (All_NotAfter-Perm v (Perm.symm (Perm.trans p q)) (NotAfter-refl v, sorted.0)).0

cons_ne : (x : ℕ × ℕ) (xs : List (ℕ × ℕ)) → ¬ ((x ∷ xs) ≡ [])
cons_ne x xs k = cc

Released-Refines :
    (line : List (ℕ × ℕ)) {s t : DispatchState} {q : Queue}
    → q.line ≡ line
    → Refines s q
    → Released s t
    → Refines t (serve line q)
unfolding serve
Released-Refines [] {q} e r (freed _ out) =
    subst (λ d. Refines d (record q { busy = false })) (sym out)
      (record {
        active = refl;
        ticket = r.ticket;
        serving = r.serving;
        same = r.same;
        sorted = r.sorted;
        fresh = r.fresh;
      })
Released-Refines [] {s} e r (served w h) =
    absurd (cons_ne w h.rest (Perm.eq-nil (Perm.trans h.taken (subst (Perm s.waiters) e r.same))))
Released-Refines (v ∷ line) {s} e r (freed none_waits _) = absurd (
    cons_ne v line (
      sym (
        Perm.nil-eq (subst (λ l. Perm l (v ∷ line)) none_waits (subst (Perm s.waiters) e r.same)))))
Released-Refines (v ∷ line) {s} {q} e r (served w h) =
    let same : Perm s.waiters (v ∷ line) = subst (Perm s.waiters) e r.same in
    let sorted = subst Sorted e r.sorted in
    let first = first_unique w v h.rest line s.waiters h.taken same h.first sorted in
    subst (λ d. Refines d (record q { turn = some v.1; line = line })) (sym h.result)
      (record {
        active = r.active;
        ticket = r.ticket;
        serving = ap (λ x. some x.1) first;
        same =
            Perm.cons_inv {a = v}
              (subst (λ x. Perm (x ∷ h.rest) (v ∷ line)) first (Perm.trans h.taken same));
        sorted = sorted.1;
        fresh = (subst (All (λ x. x.1 < q.arrivals)) e r.fresh).1;
      })

pub step-arrivals : (e : Event) (q : Queue) → (step e q).0.arrivals ≤ q.arrivals + 1
unfolding step serve
step-arrivals (Event.arrives p) q = ground arith
step-arrivals (Event.wakes n) q = ground arith
step-arrivals Event.leaves q = serve_keeps q.line
  where
    serve_keeps : (line : List (ℕ × ℕ)) → (serve line q).arrivals ≤ q.arrivals + 1
    serve_keeps [] = omega arith
    serve_keeps (w ∷ ws) = omega arith

-- One event, in the dispatcher and in the line.
pub dispatch-Refines :
    (e : Event) {s : DispatchState} {q : Queue}
    → q.arrivals + 1 < 2 ^ 64
    → Refines s q
    → (t : DispatchState) × (dispatch e s ≡ some (t, (step e q).1)) × Refines t (step e q).0
unfolding dispatch step
dispatch-Refines (Event.arrives p) {s} small r =
    let (same, keep) = acquire-Refines p small r in
    ((acquire p s).0, ap (λ c. some ((acquire p s).0, c)) same, keep)
dispatch-Refines (Event.wakes n) {s} small r =
    let (same, keep) = wake-Refines n r in
    ((wake n s).0, ap (λ c. some ((wake n s).0, c)) same, keep)
dispatch-Refines Event.leaves {s} {q} small r =
    let (t, out, how) = release-Released s in (t, rw out refl, Released-Refines q.line refl r how)

pub run-steps :
    (es : List Event) {s : DispatchState} {q : Queue}
    → q.arrivals + length es < 2 ^ 64
    → Refines s q
    → run es s ≡ some (steps es q)
unfolding run steps
run-steps [] small r = refl
run-steps (e ∷ es) {s} {q} small r =
    let (t, out, keep) = dispatch-Refines e (omega arith) r in
    let rest = run-steps es {s = t} {q = (step e q).0} (omega (arith, step-arrivals e q)) keep in
    rw (out, rest, keep.serving) refl

pub Refines-new : Refines dispatcher_new empty
unfolding dispatcher_new
Refines-new = record {
  active = refl;
  ticket = refl;
  serving = refl;
  same = Perm.refl [];
  sorted = tt;
  fresh = tt;
}

-- The dispatcher behaves as one line in which a caller stands behind all that are as urgent, and whose
-- head is served: over every sequence of fewer than 2 ^ 64 arrivals, wake-ups and releases, it does not
-- panic, and shows the same outcome of each event and the same ticket in `serving` after it.
pub run-refines :
    (es : List Event) → length es < 2 ^ 64 → run es dispatcher_new ≡ some (steps es empty)
run-refines es small = run-steps es {q = empty} (omega arith) Refines-new
