-- ===== src/ThreadPool/Dispatcher/Arrivals.antt =====
-- `acquire` of crates/backends/backend_common/src/thread_pool.rs, called by many threads: what an arrival
-- keeps.
use herbert_rs.Prelude.{
  ℕ, suc, ◌+◌, ◌%◌, ◌^◌, ◌<◌, ◌≡◌, refl, sym, ap, ◌∙◌, inl, inr, ◌≢◌, true, false, Option, none,
  some, List, [], ◌∷◌, ◌++◌, map, All, All-append, All_imp, All_of-append, leb, leb→le, leb-false,
  arith, Bool-cases,
}
use herbert_rs.Prelude.Counting.{put}
use herbert_rs.Prelude.Perms.{Distinct}
use herbert_rs.ThreadPool.Dispatcher.{DispatchState, Caller, outside, waits, holds}
use herbert_rs.ThreadPool.Dispatcher.Threads.{
  Someone, Inv, Moved, Keeps, put-cases, Someone_else, Someone-new,
}

module _ {n : ℕ} {d : DispatchState} {threads : ℕ → Caller} (v : Inv n d threads) where
  Someone-below : (t : ℕ) → Someone threads (waits t) → t < d.next_ticket
  Someone-below t someone = elim (Bool-cases (leb d.next_ticket t)) [
    | inl e ↦ absurd (someone λ j at. absurd (omega (arith, v.fresh j t at, leb→le _ _ e)))
    | inr e ↦ leb-false _ _ e
  ]

  -- An idle dispatcher has no holder, no waiter and no ticket called.
  idle_none : d.active ≡ false → d.serving ≡ none
  idle_none idle = at_none d.serving refl
    where
      at_none : (o : Option ℕ) → d.serving ≡ o → o ≡ none
      at_none none e = refl
      at_none (some t) e = absurd (clash (sym idle ∙ v.serves_busy t e))
        where
          clash : ¬ (false ≡ true)
          clash h = cc

-- The first to arrive gets the guard.
pub enter-Inv :
    {n : ℕ} {d : DispatchState} {threads : ℕ → Caller} (i : ℕ)
    → d.active ≡ false
    → threads i ≡ outside
    → Inv n d threads
    → Inv (suc n) (record d { active = true }) (put threads i holds)
enter-Inv {n} {d} {threads} i idle at v = record {
  bound = omega (arith, v.bound);
  fresh = λ j t h. elim (moved j _ h) [ inl e ↦ cc e.1 | inr e ↦ v.fresh j t e.1 ];
  one_each = λ j k t h l. elim (moved j _ h) [
    | inl e ↦ cc e.1
    | inr e ↦ elim (moved k _ l) [ inl f ↦ cc f.1 | inr f ↦ v.one_each j k t e.1 f.1 ]
  ];
  queued = λ j t h all. elim (moved j _ h) [ inl e ↦ cc e.1 | inr e ↦ v.queued j t e.1 all ];
  owned = All_imp _ _ d.waiters (λ w s. keep _ (λ e. cc) s) v.owned;
  called = λ t h. keep _ (λ e. cc) (v.called t h);
  tickets = v.tickets;
  apart = v.apart;
  waits_busy = λ j t h. refl;
  serves_busy = λ t h. refl;
  holds_busy = λ j h. (refl, idle_none v idle);
  one_holder = λ j k h l. elim (moved j _ h) [
    | inr e ↦ cc ((v.holds_busy j e.1).0)
    | inl e ↦ elim (moved k _ l) [ inl f ↦ e.0 ∙ sym f.0 | inr f ↦ cc ((v.holds_busy k f.1).0) ]
  ];
  baton = λ h l. Someone-new threads i holds;
}
  where
    moved : (j : ℕ) (x : Caller) → put threads i holds j ≡ x → Moved threads i holds j x
    moved = put-cases threads i holds

    keep : Keeps threads i holds
    keep = Someone_else threads i holds

-- The ticket of a newcomer is none that waits or is called.
map-append :
    (xs ys : List (ℕ × ℕ)) → map (λ w. w.1) (xs ++ ys) ≡ map (λ w. w.1) xs ++ map (λ w. w.1) ys
map-append [] ys = refl
map-append (x ∷ xs) ys = ap (◌∷◌ x.1) (map-append xs ys)

Distinct-snoc :
    (ws : List (ℕ × ℕ)) (w : ℕ × ℕ)
    → Distinct (map (λ x. x.1) ws)
    → All (λ x. x.1 ≢ w.1) ws
    → Distinct (map (λ x. x.1) (ws ++ (w ∷ [])))
Distinct-snoc [] w h new = (tt, tt)
Distinct-snoc (x ∷ ws) w h new = (last_too ws h.0, Distinct-snoc ws w h.1 new.1)
  where
    last_too :
        (xs : List (ℕ × ℕ))
        → All (λ y. y ≢ x.1) (map (λ y. y.1) xs)
        → All (λ y. y ≢ x.1) (map (λ y. y.1) (xs ++ (w ∷ [])))
    last_too [] k = ((λ e. new.0 (sym e)), tt)
    last_too (y ∷ xs) k = (k.0, last_too xs k.1)

-- Later ones queue behind, under a new ticket.
pub queue-Inv :
    {n : ℕ} {d : DispatchState} {threads : ℕ → Caller} (priority i : ℕ)
    → suc n < 2 ^ 64
    → d.active ≡ true
    → threads i ≡ outside
    → Inv n d threads
    → Inv
        (suc n)
        (record d {
          next_ticket = (d.next_ticket + 1) % 2 ^ 64;
          waiters = d.waiters ++ ((priority, d.next_ticket) ∷ []);
        })
        (put threads i (waits d.next_ticket))
queue-Inv {n} {d} {threads} priority i small busy at v = record {
  bound = omega (arith, v.bound);
  fresh = λ j t h. elim (moved j _ h) [
    | inl e ↦ omega (arith, v.bound, ticket-eq e.1)
    | inr e ↦ omega (arith, v.bound, v.fresh j t e.1)
  ];
  one_each = λ j k t h l. elim (moved j _ h) [
    | inl e ↦ elim (moved k _ l) [
      | inl f ↦ e.0 ∙ sym f.0
      | inr f ↦ absurd (omega (arith, ticket-eq e.1, v.fresh k t f.1))
    ]
    | inr e ↦ elim (moved k _ l) [
      | inl f ↦ absurd (omega (arith, ticket-eq f.1, v.fresh j t e.1))
      | inr f ↦ v.one_each j k t e.1 f.1
    ]
  ];
  queued = λ j t h all.
      let (before, last) = All_of-append (λ w. w.1 ≢ t) d.waiters _ all in
      elim (moved j _ h) [
        | inl e ↦ absurd (last.0 (ticket-eq e.1))
        | inr e ↦ v.queued j t e.1 before
      ];
  owned =
      All-append (λ w. Someone (put threads i (waits d.next_ticket)) (waits w.1)) d.waiters _
        (All_imp _ _ d.waiters (λ w s. keep _ (λ e. cc) s) v.owned)
        (Someone-new threads i (waits d.next_ticket), tt);
  called = λ t h. keep _ (λ e. cc) (v.called t h);
  tickets =
      Distinct-snoc d.waiters (priority, d.next_ticket) v.tickets
        (All_imp _ _ d.waiters (λ w s e. absurd (omega (arith, Someone-below v w.1 s, e))) v.owned);
  apart = λ t h.
      All-append (λ w. w.1 ≢ t) d.waiters _ (v.apart t h)
        ((λ e. absurd (omega (arith, Someone-below v t (v.called t h), e))), tt);
  waits_busy = λ j t h. busy;
  serves_busy = λ t h. busy;
  holds_busy = λ j h. elim (moved j _ h) [ inl e ↦ cc e.1 | inr e ↦ v.holds_busy j e.1 ];
  one_holder = λ j k h l. elim (moved j _ h) [
    | inl e ↦ cc e.1
    | inr e ↦ elim (moved k _ l) [ inl f ↦ cc f.1 | inr f ↦ v.one_holder j k e.1 f.1 ]
  ];
  baton = λ h l. keep _ (λ e. cc) (v.baton h l);
}
  where
    moved :
        (j : ℕ) (x : Caller)
        → put threads i (waits d.next_ticket) j ≡ x
        → Moved threads i (waits d.next_ticket) j x
    moved = put-cases threads i (waits d.next_ticket)

    keep : Keeps threads i (waits d.next_ticket)
    keep = Someone_else threads i (waits d.next_ticket)

    ticket-eq : {t u : ℕ} → waits t ≡ waits u → t ≡ u
    ticket-eq e = cc
