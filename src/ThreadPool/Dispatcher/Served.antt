-- ===== src/ThreadPool/Dispatcher/Served.antt =====
-- `PriorityDispatcher` of crates/backends/backend_common/src/thread_pool.rs: how long a waiter waits.
use mathlib.Core.List.Perm
use mathlib.Core.Option.{some-injective}
use mathlib.Core.HLevel.{Π_prop, ⊥_prop}
use mathlib.Core.Logic.{◌≢◌}
use herbert_rs.Prelude.{
  ℕ, suc, ◌+◌, ◌^◌, ◌≤◌, ◌<◌, ◌≡◌, refl, sym, ap, subst, ◌∙◌, ◌⊎◌, inl, inr, true, false, Option,
  some, List, [], ◌∷◌, ◌++◌, length, All, length-append, get_elem?, All-get_elem?, arith,
  Bool-cases,
}
use herbert_rs.Prelude.Perms.{All-Perm, length-Perm}
use herbert_rs.ThreadPool.Dispatcher.{DispatchState, dispatcher_new, Caller, key_ltb, Event, run}
use herbert_rs.ThreadPool.Dispatcher.Queue.{Queue, empty, step, steps, Sorted, Refines}
use herbert_rs.ThreadPool.Dispatcher.Refined.{
  dispatch-Refines, step-arrivals, run-steps, Refines-new,
}
use herbert_rs.ThreadPool.Dispatcher.Best.{NotAfter, NotAfter-antisym, NotAfter-refl}
use herbert_rs.ThreadPool.Dispatcher.Ahead.{
  releases, overtakers, after, ServesTicket, Stands, served_later, serve-Stands, arrive-Stands,
}

wake_keeps : (t : ℕ) (q : Queue) → (step (Event.wakes t) q).0.line ≡ q.line
unfolding step
wake_keeps t q = ground arith

steps_leave :
    (es : List Event) (w : ℕ × ℕ) (n : ℕ) (q : Queue) (s : Stands w n q.line)
    → ((q' : Queue) (m : ℕ)
        → Stands w m q'.line
        → suc m ≡ length s.front
        → ServesTicket w.1 (steps es q'))
    → ServesTicket w.1 (steps (Event.leaves ∷ es) q)
unfolding step steps
steps_leave es w n q s later = serve-Stands es w s.front s.back q.line q s.split s.urgent later

steps-Served :
    (es : List Event) (w : ℕ × ℕ) (n : ℕ) (q : Queue)
    → Stands w n q.line
    → n + overtakers w.0 es < releases es
    → ServesTicket w.1 (steps es q)
unfolding steps
steps-Served [] w n q s lt = absurd (omega arith)
steps-Served (Event.arrives p ∷ es) w n q s lt =
    let (m, le, s') = arrive-Stands p w n q s in
    served_later _ _ _ (steps-Served es w m _ s' (omega arith))
steps-Served (Event.wakes t ∷ es) w n q s lt =
    served_later _ _ _ (steps-Served es w n _ (subst (Stands w n) (sym (wake_keeps t q)) s) lt)
steps-Served (Event.leaves ∷ es) w n q s lt =
    steps_leave es w n q s λ q' m s' e. steps-Served es w m q' s' (omega (arith, s.long, e))

-- `w` is in the list, or nowhere.
search_line :
    (w : ℕ × ℕ) (line : List (ℕ × ℕ))
    → ((front : List (ℕ × ℕ)) × (back : List (ℕ × ℕ)) × (line ≡ front ++ (w ∷ back)))
      ⊎ All (λ v. v ≢ w) line
search_line w [] = inr tt
search_line w (v ∷ vs) = elim (search_line w vs) [
  | inl (front, back, e) ↦ inl (v ∷ front, back, ap (◌∷◌ v) e)
  | inr none_here ↦ elim (Bool-cases (key_ltb v w)) [
    | inl less ↦ inr ((λ e. differs v w less e), none_here)
    | inr ge ↦ elim (Bool-cases (key_ltb w v)) [
      | inl more ↦ inr ((λ e. differs w v more (sym e)), none_here)
      | inr le ↦ inl ([], vs, ap (λ x. x ∷ vs) (NotAfter-antisym v w le ge))
    ]
  ]
]
  where
    absurd_eq : ¬ (true ≡ false)
    absurd_eq h = cc

    differs : (a b : ℕ × ℕ) → key_ltb a b ≡ true → ¬ (a ≡ b)
    differs a b less e = absurd_eq (sym less ∙ subst (λ x. NotAfter x a) e (NotAfter-refl a))

NotAfter-le : (v w : ℕ × ℕ) → NotAfter v w → v.0 ≤ w.0
unfolding key_ltb
NotAfter-le v w h = ground arith

front-urgent :
    (front : List (ℕ × ℕ)) (w : ℕ × ℕ) (back : List (ℕ × ℕ))
    → Sorted (front ++ (w ∷ back))
    → All (λ v. v.0 ≤ w.0) front
front-urgent [] w back h = tt
front-urgent (v ∷ front) w back h =
    (NotAfter-le v w (All_at front h.0), front-urgent front w back h.1)
  where
    All_at : (xs : List (ℕ × ℕ)) → All (NotAfter v) (xs ++ (w ∷ back)) → NotAfter v w
    All_at [] k = k.0
    All_at (x ∷ xs) k = All_at xs k.1

-- Whoever waits at the dispatcher stands in its line.
Refines-Stands :
    {s : DispatchState} {q : Queue} (w : ℕ × ℕ) (i : ℕ)
    → Refines s q
    → get_elem? s.waiters i ≡ some w
    → (n : ℕ) × (n < length s.waiters) × Stands w n q.line
Refines-Stands {s} {q} w i r at = elim (search_line w q.line) [
  | inl (front, back, e) ↦ (
    length front,
    omega (arith, length-Perm r.same, ap length e, length-append front (w ∷ back)),
    record {
      front = front;
      back = back;
      split = e;
      long = refl;
      urgent = front-urgent front w back (subst Sorted e r.sorted);
    },
  )
  | inr nowhere ↦ absurd (
      All-get_elem? (λ v. v ≢ w) s.waiters i
        (All-Perm (λ v. v ≢ w) (λ v. Π_prop (λ e. ⊥_prop)) (Perm.symm r.same) nowhere) at refl)
]

after-Refines :
    (es : List Event) {s : DispatchState} {q : Queue}
    → q.arrivals + length es < 2 ^ 64
    → Refines s q
    → (t : DispatchState) × (q' : Queue) × (after es s ≡ some t)
      × Refines t q'
      × (q'.arrivals ≤ q.arrivals + length es)
unfolding after
after-Refines [] {s} {q} small r = (s, q, refl, r, omega arith)
after-Refines (e ∷ es) {s} {q} small r =
    let (t, out, keep) = dispatch-Refines e (omega arith) r in
    let (u, q', run, done, le) =
      after-Refines es {s = t} {q = (step e q).0} (omega (arith, step-arrivals e q)) keep in
    (u, q', rw (out, run) refl, done, omega (arith, step-arrivals e q, le))

-- A waiter is served in time: whenever, after fewer than 2 ^ 64 events, a caller waits at some
-- position of `waiters`, then in any further events (fewer than 2 ^ 64 in all) with as many releases as
-- there are waiters now and arrivals later that are more urgent, some release serves its ticket.
pub waiter_served :
    (es fs : List Event) (s : DispatchState) (w : ℕ × ℕ) (i : ℕ)
    → length es + length fs < 2 ^ 64
    → after es dispatcher_new ≡ some s
    → get_elem? s.waiters i ≡ some w
    → length s.waiters + overtakers w.0 fs ≤ releases fs
    → (seen : List (Caller × Option ℕ)) × (run fs s ≡ some seen) × ServesTicket w.1 seen
waiter_served es fs s w i small reach at enough =
    let (t, q, out, r, le) = after-Refines es {q = empty} (omega arith) Refines-new in
    let e : t ≡ s = some-injective t s (sym out ∙ reach) in
    let r' = subst (λ d. Refines d q) e r in
    let (n, lt, stands) = Refines-Stands w i r' at in
    (steps fs q, run-steps fs (omega (arith, le)) r', steps-Served fs w n q stands (omega arith))
