-- ===== src/ThreadPool/Dispatcher.antt =====
-- `PriorityDispatcher` of crates/backends/backend_common/src/thread_pool.rs. What a caller does
-- between taking and giving up the mutex is one function; `Condvar::wait` ends one and `wake` starts
-- the next.
pub mod Best
pub mod Queue
pub mod Refined
pub mod Ahead
pub mod Served
pub mod Threads
pub mod Arrivals
pub mod Departures
pub mod Exclusion
use herbert_rs.Prelude.{
  ℕ, zero, suc, ◌+◌, ◌%◌, ◌^◌, min, Bool, true, false, not, ◌&&◌, ◌||◌, Option, none, some, List,
  [], ◌∷◌, ◌++◌, ltb, ◌==◌, if◌then◌else◌, ◌>>=◌,
}
use herbert_rs.SharedCache.{swap_remove}

pub record DispatchState : Type 0 where
  pub active : Bool
  pub next_ticket : ℕ
  pub serving : Option ℕ
  pub waiters : List (ℕ × ℕ)  -- (priority, ticket)

unfoldable pub dispatcher_new : DispatchState
dispatcher_new = record { active = false; next_ticket = 0; serving = none; waiters = [] }

-- Where a thread stands: outside, in the loop of `acquire` with its ticket, or with the guard.
pub data Caller : Type 0 where
  outside : Caller
  waits : (ticket : ℕ) → Caller
  holds : Caller

-- `DISPATCH_PRIORITY` after `set_dispatch_priority(priority)`.
unfoldable pub set_dispatch_priority : ℕ → ℕ
set_dispatch_priority priority = min priority 9

-- `acquire`, up to its loop.
unfoldable pub acquire : ℕ → DispatchState → DispatchState × Caller
acquire priority s = if not s.active then (record s { active = true }, Caller.holds) else (
  record s {
    next_ticket = (s.next_ticket + 1) % 2 ^ 64;
    waiters = s.waiters ++ ((priority, s.next_ticket) ∷ []);
  },
  Caller.waits s.next_ticket,
)

-- `state.serving == Some(ticket)`
unfoldable pub is_served : Option ℕ → ℕ → Bool
is_served none ticket = false
is_served (some t) ticket = t == ticket

-- The body of the loop of `acquire`, once `Condvar::wait` has returned.
unfoldable pub wake : ℕ → DispatchState → DispatchState × Caller
wake ticket s =
    if is_served s.serving ticket
    then (record s { serving = none }, Caller.holds)
    else (s, Caller.waits ticket)

-- The order of the keys `(prio, ticket)`.
unfoldable pub key_ltb : ℕ × ℕ → ℕ × ℕ → Bool
key_ltb a b = ltb a.0 b.0 || (a.0 == b.0 && ltb a.1 b.1)

-- The fold of `min_by_key`: the first of the smallest. `best` is the position and key so far.
unfoldable pub best_from : ℕ × (ℕ × ℕ) → ℕ → List (ℕ × ℕ) → ℕ × (ℕ × ℕ)
best_from best i [] = best
best_from best i (w ∷ ws) = best_from (if key_ltb w best.1 then (i, w) else best) (suc i) ws

-- `release`, by whether somebody waits.
unfoldable pub release_to : List (ℕ × ℕ) → DispatchState → Option DispatchState
release_to [] s = some (record s { active = false })
release_to (w ∷ ws) s = do
  (entry, waiters) ← swap_remove s.waiters (best_from (0, w) 1 ws).0
  some (record s { waiters = waiters; serving = some entry.1 })

unfoldable pub release : DispatchState → Option DispatchState
release s = release_to s.waiters s

-- What may happen to the dispatcher.
pub data Event : Type 0 where
  arrives : (priority : ℕ) → Event
  wakes : (ticket : ℕ) → Event
  leaves : Event

-- The state after one event, and where the thread then stands.
unfoldable pub dispatch : Event → DispatchState → Option (DispatchState × Caller)
dispatch (Event.arrives priority) s = some (acquire priority s)
dispatch (Event.wakes ticket) s = some (wake ticket s)
dispatch Event.leaves s = release s >>= λ t. some (t, Caller.outside)

-- What each event of a sequence shows: where the thread stands, and `serving`.
unfoldable pub run : List Event → DispatchState → Option (List (Caller × Option ℕ))
run [] s = some []
run (e ∷ es) s = do (t, caller) ← dispatch e s; seen ← run es t; some ((caller, t.serving) ∷ seen)
