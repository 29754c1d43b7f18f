-- ===== src/ThreadPool/Dispatcher/Ahead.antt =====
-- The line of `PriorityDispatcher` of crates/backends/backend_common/src/thread_pool.rs: who stands before
-- a waiter, and how an event changes that.
use herbert_rs.Prelude.{
  ℕ, suc, ◌+◌, ◌≤◌, ◌<◌, ◌≡◌, refl, ap, ◌∙◌, inl, inr, Option, some, List, [], ◌∷◌, ◌++◌, length,
  All, ltb, ltb→lt, ltb-false, lt→ltb, le→ltb, if◌then◌else◌, get_elem?, ◌>>=◌, arith, Bool-cases,
}
use herbert_rs.ThreadPool.Dispatcher.{DispatchState, Caller, Event, dispatch}
use herbert_rs.ThreadPool.Dispatcher.Queue.{Queue, enqueue, serve, step, steps}

-- The releases of a sequence of events.
abbrev pub releases : List Event → ℕ
releases [] = 0
releases (Event.leaves ∷ es) = suc (releases es)
releases (Event.arrives p ∷ es) = releases es
releases (Event.wakes t ∷ es) = releases es

-- The arrivals that are more urgent than `priority`.
abbrev pub overtakers : ℕ → List Event → ℕ
overtakers priority [] = 0
overtakers priority (Event.leaves ∷ es) = overtakers priority es
overtakers priority (Event.arrives p ∷ es) =
    (if ltb p priority then 1 else 0) + overtakers priority es
overtakers priority (Event.wakes t ∷ es) = overtakers priority es

-- The state after a sequence of events.
unfoldable pub after : List Event → DispatchState → Option DispatchState
after [] s = some s
after (e ∷ es) s = do (t, _) ← dispatch e s; after es t

-- Some release of the sequence serves the ticket.
abbrev pub ServesTicket : ℕ → List (Caller × Option ℕ) → Type 0
ServesTicket t seen = (i : ℕ) × (get_elem? seen i ≡ some (Caller.outside, some t))

-- `w` stands in the line, behind `n` others that are all at least as urgent.
pub record Stands (w : ℕ × ℕ) (n : ℕ) (line : List (ℕ × ℕ)) : Type 0 where
  pub front : List (ℕ × ℕ)
  pub back : List (ℕ × ℕ)
  pub split : line ≡ front ++ (w ∷ back)
  pub long : length front ≡ n
  pub urgent : All (λ v. v.0 ≤ w.0) front

-- A newcomer that is as urgent or less goes behind `w`, any other before it.
enqueue-behind :
    (x w : ℕ × ℕ) (front back : List (ℕ × ℕ))
    → w.0 ≤ x.0
    → All (λ v. v.0 ≤ w.0) front
    → enqueue x (front ++ (w ∷ back)) ≡ front ++ (w ∷ enqueue x back)
unfolding enqueue
enqueue-behind x w [] back le h = rw (le→ltb x.0 w.0 le) refl
enqueue-behind x w (v ∷ front) back le h =
    rw (le→ltb x.0 v.0 (omega (arith, h.0))) (ap (◌∷◌ v) (enqueue-behind x w front back le h.1))

enqueue-before :
    (x w : ℕ × ℕ) (front back : List (ℕ × ℕ))
    → x.0 < w.0
    → All (λ v. v.0 ≤ w.0) front
    → Stands w (suc (length front)) (enqueue x (front ++ (w ∷ back)))
unfolding enqueue
enqueue-before x w [] back lt h =
    rw (lt→ltb x.0 w.0 lt)
      record { front = x ∷ []; back = back; split = refl; long = refl; urgent = (omega arith, tt) }
enqueue-before x w (v ∷ front) back lt h = elim (Bool-cases (ltb x.0 v.0)) [
  | inl e ↦ rw e record {
    front = x ∷ (v ∷ front);
    back = back;
    split = refl;
    long = refl;
    urgent = (omega arith, h);
  }
  | inr e ↦ rw e (
      let s = enqueue-before x w front back lt h.1 in
      record {
        front = v ∷ s.front;
        back = s.back;
        split = ap (◌∷◌ v) s.split;
        long = ap suc s.long;
        urgent = (h.0, s.urgent);
      })
]

pub served_later :
    (t : ℕ) (x : Caller × Option ℕ) (seen : List (Caller × Option ℕ))
    → ServesTicket t seen
    → ServesTicket t (x ∷ seen)
served_later t x seen (i, h) = (suc i, h)

-- A release serves `w`, or brings it one place forward.
pub serve-Stands :
    (es : List Event) (w : ℕ × ℕ) (front back line : List (ℕ × ℕ)) (q : Queue)
    → line ≡ front ++ (w ∷ back)
    → All (λ v. v.0 ≤ w.0) front
    → ((q' : Queue) (n : ℕ)
        → Stands w n q'.line
        → suc n ≡ length front
        → ServesTicket w.1 (steps es q'))
    → ServesTicket w.1 ((Caller.outside, (serve line q).turn) ∷ steps es (serve line q))
unfolding serve
serve-Stands es w [] back line q e h later = rw e (0, refl)
serve-Stands es w (v ∷ front) back line q e h later = rw e (
    served_later _ _ _ (
      later _ (length front)
        record { front = front; back = back; split = refl; long = refl; urgent = h.1 } refl))

pub arrive-Stands :
    (p : ℕ) (w : ℕ × ℕ) (n : ℕ) (q : Queue)
    → Stands w n q.line
    → (m : ℕ) × (m ≤ n + (if ltb p w.0 then 1 else 0))
      × Stands w m (step (Event.arrives p) q).0.line
unfolding step
arrive-Stands p w n q s = elim (Bool-cases q.busy) [
  | inr idle ↦ rw idle (n, ground arith, s)
  | inl busy ↦ elim (Bool-cases (ltb p w.0)) [
    | inl e ↦ (
      suc (length s.front),
      rw e (omega (arith, s.long)),
      simp (busy, s.split)
          (enqueue-before (p, q.arrivals) w s.front s.back (ltb→lt p w.0 e) s.urgent),
    )
    | inr e ↦ (
      n,
      omega arith,
      simp busy record {
        front = s.front;
        back = enqueue (p, q.arrivals) s.back;
        split =
            ap (enqueue (p, q.arrivals)) s.split
            ∙ enqueue-behind (p, q.arrivals) w s.front s.back (ltb-false p w.0 e) s.urgent;
        long = s.long;
        urgent = s.urgent;
      },
    )
  ]
]
