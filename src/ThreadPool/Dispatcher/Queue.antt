-- ===== src/ThreadPool/Dispatcher/Queue.antt =====
-- What `PriorityDispatcher` of crates/backends/backend_common/src/thread_pool.rs promises: one line of
-- waiters, the more urgent first and, at one priority, in the order of their arrival.
use mathlib.Core.List.{Perm}
use mathlib.Core.List.Perm
use herbert_rs.Prelude.{
  ℕ, ◌+◌, ◌≤◌, ◌<◌, ◌≡◌, inl, inr, Bool, true, false, Option, none, some, List, [], ◌∷◌, All,
  All_imp, ltb, ltb→lt, ltb-false, if◌then◌else◌, arith, Bool-cases,
}
use herbert_rs.ThreadPool.Dispatcher.{DispatchState, Caller, is_served, key_ltb, Event}
use herbert_rs.ThreadPool.Dispatcher.Best.{NotAfter, NotAfter-trans}

pub record Queue : Type 0 where
  pub busy : Bool
  pub arrivals : ℕ
  pub turn : Option ℕ
  pub line : List (ℕ × ℕ)

abbrev pub empty : Queue
empty = record { busy = false; arrivals = 0; turn = none; line = [] }

-- Behind everybody who is as urgent.
unfoldable pub enqueue : ℕ × ℕ → List (ℕ × ℕ) → List (ℕ × ℕ)
enqueue w [] = w ∷ []
enqueue w (v ∷ vs) = if ltb w.0 v.0 then w ∷ (v ∷ vs) else v ∷ enqueue w vs

unfoldable pub serve : List (ℕ × ℕ) → Queue → Queue
serve [] q = record q { busy = false }
serve (w ∷ ws) q = record q { turn = some w.1; line = ws }

unfoldable pub step : Event → Queue → Queue × Caller
step (Event.arrives priority) q =
    if q.busy
    then (
      record q { arrivals = q.arrivals + 1; line = enqueue (priority, q.arrivals) q.line },
      Caller.waits q.arrivals,
    )
    else (record q { busy = true }, Caller.holds)
step (Event.wakes ticket) q =
    if is_served q.turn ticket
    then (record q { turn = none }, Caller.holds)
    else (q, Caller.waits ticket)
step Event.leaves q = (serve q.line q, Caller.outside)

unfoldable pub steps : List Event → Queue → List (Caller × Option ℕ)
steps [] q = []
steps (e ∷ es) q = ((step e q).1, (step e q).0.turn) ∷ steps es (step e q).0

abbrev pub Sorted : List (ℕ × ℕ) → Type 0
Sorted [] = Unit
Sorted (w ∷ ws) = All (NotAfter w) ws × Sorted ws

pub enqueue-Perm : (w : ℕ × ℕ) (line : List (ℕ × ℕ)) → Perm (w ∷ line) (enqueue w line)
unfolding enqueue
enqueue-Perm w [] = Perm.refl _
enqueue-Perm w (v ∷ vs) = elim (Bool-cases (ltb w.0 v.0)) [
  | inl e ↦ rw e (Perm.refl _)
  | inr e ↦ rw e (Perm.trans (Perm.swap v w vs) (Perm.cons v (enqueue-Perm w vs)))
]

pub All-enqueue :
    (P : ℕ × ℕ → Type 0) (w : ℕ × ℕ) (line : List (ℕ × ℕ))
    → P w
    → All P line
    → All P (enqueue w line)
unfolding enqueue
All-enqueue P w [] h all = (h, tt)
All-enqueue P w (v ∷ vs) h all = elim (Bool-cases (ltb w.0 v.0)) [
  | inl e ↦ rw e (h, all)
  | inr e ↦ rw e (all.0, All-enqueue P w vs h all.1)
]

urgent-NotAfter : (w v : ℕ × ℕ) → w.0 < v.0 → NotAfter w v
unfolding key_ltb
urgent-NotAfter w v h = ground arith

earlier-NotAfter : (v w : ℕ × ℕ) → v.0 ≤ w.0 → v.1 < w.1 → NotAfter v w
unfolding key_ltb
earlier-NotAfter v w h k = ground arith

-- Whoever holds a ticket above all others keeps the line in order.
pub enqueue-Sorted :
    (w : ℕ × ℕ) (line : List (ℕ × ℕ))
    → All (λ v. v.1 < w.1) line
    → Sorted line
    → Sorted (enqueue w line)
unfolding enqueue
enqueue-Sorted w [] fresh h = (tt, tt)
enqueue-Sorted w (v ∷ vs) fresh h = elim (Bool-cases (ltb w.0 v.0)) [
  | inl e ↦ rw e (
      let first = urgent-NotAfter w v (ltb→lt _ _ e) in
      ((first, All_imp (NotAfter v) (NotAfter w) vs (λ x. NotAfter-trans w v x first) h.0), h))
  | inr e ↦ rw e (
    All-enqueue (NotAfter v) w vs (earlier-NotAfter v w (ltb-false _ _ e) fresh.0) h.0,
    enqueue-Sorted w vs fresh.1 h.1,
  )
]

-- What the dispatcher keeps of the line: the same people, in any order.
pub record Refines (s : DispatchState) (q : Queue) : Type 0 where
  pub active : s.active ≡ q.busy
  pub ticket : s.next_ticket ≡ q.arrivals
  pub serving : s.serving ≡ q.turn
  pub same : Perm s.waiters q.line
  pub sorted : Sorted q.line
  pub fresh : All (λ v. v.1 < q.arrivals) q.line
