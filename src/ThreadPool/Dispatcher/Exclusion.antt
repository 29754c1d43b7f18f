-- ===== src/ThreadPool/Dispatcher/Exclusion.antt =====
-- `PriorityDispatcher` of crates/backends/backend_common/src/thread_pool.rs, with any number of threads
-- that take turns at its mutex.
use mathlib.Core.Option.{some-injective}
use herbert_rs.Prelude.{
  ℕ, suc, ◌+◌, ◌%◌, ◌^◌, ◌<◌, ◌≡◌, refl, sym, ap, subst, ◌∙◌, inl, inr, ◌≢◌, true, not, Option,
  none, some, [], ◌∷◌, ◌++◌, if◌then◌else◌, arith, Bool-cases,
}
use herbert_rs.Prelude.Counting.{put}
use herbert_rs.ThreadPool.Dispatcher.{
  DispatchState, dispatcher_new, Caller, outside, waits, holds, acquire, is_served, wake,
}
use herbert_rs.ThreadPool.Dispatcher.Best.{Released, freed, served, release-Released}
use herbert_rs.ThreadPool.Dispatcher.Threads.{
  Turn, arrive, wakes, leave, System, Reach, start, next, Inv,
}
use herbert_rs.ThreadPool.Dispatcher.Arrivals.{enter-Inv, queue-Inv}
use herbert_rs.ThreadPool.Dispatcher.Departures.{wake-Inv, stay-Inv, free-Inv, serve-Inv}

-- What a turn of kind `b` keeps, whichever branch it takes.
abbrev KeepsInv : ℕ → (ℕ → Caller) → ℕ → DispatchState × Caller → Type 0
KeepsInv n threads i r = Inv (suc n) r.0 (put threads i r.1)

acquire-Inv :
    {n : ℕ} {d : DispatchState} {threads : ℕ → Caller} (i p : ℕ)
    → suc n < 2 ^ 64
    → threads i ≡ outside
    → Inv n d threads
    → KeepsInv n threads i (acquire p d)
unfolding acquire
acquire-Inv {n} {d} {threads} i p small at v = elim (Bool-cases d.active) [
  | inl e ↦
      subst (λ b. KeepsInv n threads i (if not b then enters else queues)) (sym e)
        (queue-Inv p i small e at v)
  | inr e ↦
      subst (λ b. KeepsInv n threads i (if not b then enters else queues)) (sym e)
        (enter-Inv i e at v)
]
  where
    enters : DispatchState × Caller
    enters = (record d { active = true }, holds)

    queues : DispatchState × Caller
    queues = (
      record d {
        next_ticket = (d.next_ticket + 1) % 2 ^ 64;
        waiters = d.waiters ++ ((p, d.next_ticket) ∷ []);
      },
      waits d.next_ticket,
    )

is_served-some : (o : Option ℕ) (t : ℕ) → is_served o t ≡ true → o ≡ some t
unfolding is_served
is_served-some none t h = cc
is_served-some (some u) t h = ap some (ground arith)

wakes-Inv :
    {n : ℕ} {d : DispatchState} {threads : ℕ → Caller} (i t : ℕ)
    → threads i ≡ waits t
    → Inv n d threads
    → KeepsInv n threads i (wake t d)
unfolding wake
wakes-Inv {n} {d} {threads} i t at v = elim (Bool-cases (is_served d.serving t)) [
  | inl e ↦
      subst (λ b. KeepsInv n threads i (if b then takes else (d, waits t))) (sym e)
        (wake-Inv t i (is_served-some d.serving t e) at v)
  | inr e ↦
      subst (λ b. KeepsInv n threads i (if b then takes else (d, waits t))) (sym e)
        (stay-Inv i (waits t) at v)
]
  where
    takes : DispatchState × Caller
    takes = (record d { serving = none }, holds)

release-Inv :
    {n : ℕ} {d t : DispatchState} {threads : ℕ → Caller} (i : ℕ)
    → threads i ≡ holds
    → Released d t
    → Inv n d threads
    → Inv (suc n) t (put threads i outside)
release-Inv {n} {threads} i at (freed nobody out) v =
    subst (λ x. Inv (suc n) x (put threads i outside)) (sym out) (free-Inv i at v nobody)
release-Inv {n} {threads} i at (served w h) v =
    subst (λ x. Inv (suc n) x (put threads i outside)) (sym h.result)
      (serve-Inv i at v w h.rest h.taken)

Turn-Inv :
    {n : ℕ} {d d' : DispatchState} {threads : ℕ → Caller} {b c : Caller} (i : ℕ)
    → suc n < 2 ^ 64
    → threads i ≡ b
    → Turn d b d' c
    → Inv n d threads
    → Inv (suc n) d' (put threads i c)
Turn-Inv i small at (arrive p) v = acquire-Inv i p small at v
Turn-Inv i small at (wakes {t}) v = wakes-Inv i t at v
Turn-Inv {n} {d} {threads} i small at (leave out) v =
    let (t, run, how) = release-Released d in
    subst (λ x. Inv (suc n) x (put threads i outside)) (some-injective t _ (sym run ∙ out))
      (release-Inv i at how v)

Inv-start : Inv 0 dispatcher_new (λ i. outside)
unfolding dispatcher_new
Inv-start = record {
  bound = omega arith;
  fresh = λ i t h. cc;
  one_each = λ i j t h k. cc;
  queued = λ i t h all. cc;
  owned = tt;
  called = λ t h. cc;
  tickets = tt;
  apart = λ t h. cc;
  waits_busy = λ i t h. cc;
  serves_busy = λ t h. cc;
  holds_busy = λ i h. cc;
  one_holder = λ i j h k. cc;
  baton = λ h k. cc;
}

wake_called : (u : ℕ) (d : DispatchState) → d.serving ≡ some u → (wake u d).1 ≡ holds
unfolding wake is_served
wake_called u d e = ground (arith, e)

pub Reach-Inv : {n : ℕ} {s : System} → n < 2 ^ 64 → Reach n s → Inv n s.dispatcher s.threads
Reach-Inv small start = Inv-start
Reach-Inv small (next r i turn) = Turn-Inv i small refl turn (Reach-Inv (omega arith) r)

-- Mutual exclusion: after any fewer than 2 ^ 64 turns of any threads, at most one of them holds the
-- guard of the dispatcher.
pub mutual_exclusion :
    {n : ℕ} {s : System} (i j : ℕ)
    → n < 2 ^ 64
    → Reach n s
    → s.threads i ≡ holds
    → s.threads j ≡ holds
    → i ≡ j
mutual_exclusion i j small r h k = (Reach-Inv small r).one_holder i j h k

-- No thread is forgotten: after any fewer than 2 ^ 64 turns, if a thread waits and none holds the guard,
-- then some ticket is called, a thread that waits with it gets the guard when it wakes, and it is not so
-- that no thread does.
pub never_forgotten :
    {n : ℕ} {s : System} (i t : ℕ)
    → n < 2 ^ 64
    → Reach n s
    → s.threads i ≡ waits t
    → ((j : ℕ) → s.threads j ≢ holds)
    → (u : ℕ) × (s.dispatcher.serving ≡ some u)
      × ((wake u s.dispatcher).1 ≡ holds)
      × ¬ ((j : ℕ) → s.threads j ≢ waits u)
never_forgotten {n} {s} i t small r at nobody = called_now s.dispatcher.serving refl
  where
    v : Inv n s.dispatcher s.threads
    v = Reach-Inv small r

    called_now :
        (o : Option ℕ)
        → s.dispatcher.serving ≡ o
        → (u : ℕ) × (s.dispatcher.serving ≡ some u)
          × ((wake u s.dispatcher).1 ≡ holds)
          × ¬ ((j : ℕ) → s.threads j ≢ waits u)
    called_now none e = absurd (v.baton (v.waits_busy i t at) e nobody)
    called_now (some u) e = (u, e, wake_called u s.dispatcher e, v.called u e)
