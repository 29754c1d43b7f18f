-- ===== src/ThreadPool/Dispatcher/Best.antt =====
-- `release` of crates/backends/backend_common/src/thread_pool.rs: the waiter that it takes out.
use mathlib.Core.List.{Perm}
use herbert_rs.Prelude.{
  ℕ, suc, ◌+◌, ◌≡◌, refl, inl, inr, sym, subst, true, false, some, List, [], ◌∷◌, get_elem?, All,
  arith, Bool-cases, if◌then◌else◌, ap, ap₂,
}
use herbert_rs.SharedCache.SwapRemove.{swap_remove-Removes, Removes-perm}
use herbert_rs.ThreadPool.Dispatcher.{DispatchState, key_ltb, best_from, release_to, release}

-- The second waiter does not come before the first.
abbrev pub NotAfter : ℕ × ℕ → ℕ × ℕ → Type 0
NotAfter a b = key_ltb b a ≡ false

key_ltb-NotAfter : (a b : ℕ × ℕ) → key_ltb a b ≡ true → NotAfter a b
unfolding key_ltb
key_ltb-NotAfter a b h = ground arith

pub NotAfter-refl : (a : ℕ × ℕ) → NotAfter a a
unfolding key_ltb
NotAfter-refl a = ground arith

pub NotAfter-antisym : (a b : ℕ × ℕ) → NotAfter a b → NotAfter b a → a ≡ b
unfolding key_ltb
NotAfter-antisym a b h k = ap₂ (λ x y. (x, y)) (ground arith) (ground arith)

pub NotAfter-trans : (a b c : ℕ × ℕ) → NotAfter a b → NotAfter b c → NotAfter a c
unfolding key_ltb
NotAfter-trans a b c h k = ground arith

-- The waiter at a position of the list, that no other of `best` and `ws` comes before.
record Least (full : List (ℕ × ℕ)) (best : ℕ × ℕ) (ws : List (ℕ × ℕ)) (r : ℕ × (ℕ × ℕ))
    : Type 0 where
  found : get_elem? full r.0 ≡ some r.1
  below : NotAfter r.1 best
  all : All (NotAfter r.1) ws

-- `ws` stands in the whole list from position `i` on.
abbrev StandsAt : List (ℕ × ℕ) → List (ℕ × ℕ) → ℕ → Type 0
StandsAt full ws i = (j : ℕ) → get_elem? ws j ≡ get_elem? full (i + j)

StandsAt-next :
    (full : List (ℕ × ℕ)) (w : ℕ × ℕ) (ws : List (ℕ × ℕ)) (i : ℕ)
    → StandsAt full (w ∷ ws) i
    → StandsAt full ws (suc i)
StandsAt-next full w ws i h j =
    subst (λ k. get_elem? ws j ≡ get_elem? full k) (omega arith) (h (suc j))

StandsAt-self : (ws : List (ℕ × ℕ)) → StandsAt ws ws 0
StandsAt-self ws j = ap (get_elem? ws) (omega arith)

best_from-Least :
    (full : List (ℕ × ℕ)) (best : ℕ × (ℕ × ℕ)) (i : ℕ) (ws : List (ℕ × ℕ))
    → StandsAt full ws i
    → get_elem? full best.0 ≡ some best.1
    → Least full best.1 ws (best_from best i ws)
unfolding best_from
best_from-Least full best i [] h found = record {
  found = found;
  below = NotAfter-refl best.1;
  all = tt;
}
best_from-Least full best i (w ∷ ws) h found =
    elim (Bool-cases (key_ltb w best.1))
      as (λ _.
        Least full best.1 (w ∷ ws)
          (best_from (if key_ltb w best.1 then (i, w) else best) (suc i) ws)) [
            | inl less ↦ rw less (
                let r =
                  best_from-Least full (i, w) (suc i) ws (StandsAt-next full w ws i h)
                    (subst (λ k. get_elem? full k ≡ some w) (omega arith) (sym (h 0))) in
                record {
                  found = r.found;
                  below = NotAfter-trans _ w best.1 r.below (key_ltb-NotAfter w best.1 less);
                  all = (r.below, r.all);
                })
            | inr more ↦ rw more (
                let r = best_from-Least full best (suc i) ws (StandsAt-next full w ws i h) found in
                record {
                  found = r.found;
                  below = r.below;
                  all = (NotAfter-trans _ best.1 w r.below more, r.all);
                })
          ]

-- What `release` does when somebody waits.
pub record Serves (s t : DispatchState) (w : ℕ × ℕ) : Type 0 where
  pub rest : List (ℕ × ℕ)
  pub result : t ≡ record s { waiters = rest; serving = some w.1 }
  pub taken : Perm (w ∷ rest) s.waiters
  pub first : All (NotAfter w) s.waiters

release_to-Serves :
    (w : ℕ × ℕ) (ws : List (ℕ × ℕ)) (s : DispatchState)
    → s.waiters ≡ w ∷ ws
    → (t : DispatchState) × (release_to (w ∷ ws) s ≡ some t) × (x : ℕ × ℕ) × Serves s t x
unfolding release_to
release_to-Serves w ws s e =
    let best = best_from (0, w) 1 ws in
    let b =
      best_from-Least (w ∷ ws) (0, w) 1 ws (StandsAt-next (w ∷ ws) w ws 0 (StandsAt-self (w ∷ ws)))
        refl in
    let (rest, out, r) =
      swap_remove-Removes s.waiters best.0 best.1
        (subst (λ l. get_elem? l best.0 ≡ some best.1) (sym e) b.found) in
    (
      record s { waiters = rest; serving = some best.1.1 },
      rw out refl,
      best.1,
      record {
        rest = rest;
        result = refl;
        taken = Removes-perm r;
        first = subst (All (NotAfter best.1)) (sym e) (b.below, b.all);
      },
    )

-- Both cases of `release`: the slot is free again, or a waiter is served.
pub data Released (s t : DispatchState) : Type 0 where
  freed : s.waiters ≡ [] → t ≡ record s { active = false } → Released s t
  served : (w : ℕ × ℕ) → Serves s t w → Released s t

release_to-Released :
    (ws : List (ℕ × ℕ)) (s : DispatchState)
    → s.waiters ≡ ws
    → (t : DispatchState) × (release_to ws s ≡ some t) × Released s t
unfolding release_to
release_to-Released [] s e = (record s { active = false }, refl, Released.freed e refl)
release_to-Released (w ∷ ws) s e =
    let (t, out, x, r) = release_to-Serves w ws s e in (t, out, Released.served x r)

-- `release` never panics. With nobody waiting it frees the slot; otherwise it serves one of the
-- waiters, that none comes before in the order of priority, then ticket, and leaves the others.
pub release-Released :
    (s : DispatchState) → (t : DispatchState) × (release s ≡ some t) × Released s t
unfolding release
release-Released s = release_to-Released s.waiters s refl
