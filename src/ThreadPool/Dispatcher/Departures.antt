-- ===== src/ThreadPool/Dispatcher/Departures.antt =====
-- `wake`, the loop of `acquire`, and `release`, of crates/backends/backend_common/src/thread_pool.rs,
-- with many threads: what they keep.
use mathlib.Core.List.{Perm}
use mathlib.Core.List.Perm
use mathlib.Core.HLevel.{Π_prop, ⊥_prop}
use mathlib.Core.Path.{fun_ext}
use mathlib.Core.Option.{some-injective}
use herbert_rs.Prelude.{
  ℕ, suc, ◌<◌, ◌≡◌, refl, sym, ap, subst, ◌∙◌, inl, inr, ◌≢◌, true, false, none, some, List, [],
  ◌∷◌, map, All, All_imp, arith, ℕ_discrete,
}
use herbert_rs.Prelude.Counting.{put}
use herbert_rs.Prelude.Perms.{All-Perm, Distinct, Distinct-Perm}
use herbert_rs.ThreadPool.Dispatcher.{DispatchState, Caller, outside, waits, holds}
use herbert_rs.ThreadPool.Dispatcher.Threads.{
  Someone, Inv, Moved, Keeps, put-cases, Someone_else, Someone-new,
}

-- The one whose ticket is called takes the guard over.
pub wake-Inv :
    {n : ℕ} {d : DispatchState} {threads : ℕ → Caller} (t i : ℕ)
    → d.serving ≡ some t
    → threads i ≡ waits t
    → Inv n d threads
    → Inv (suc n) (record d { serving = none }) (put threads i holds)
wake-Inv {n} {d} {threads} t i call at v = record {
  bound = omega (arith, v.bound);
  fresh = λ j u h. elim (moved j _ h) [ inl e ↦ cc e.1 | inr e ↦ v.fresh j u e.1 ];
  one_each = λ j k u h l. elim (moved j _ h) [
    | inl e ↦ cc e.1
    | inr e ↦ elim (moved k _ l) [ inl f ↦ cc f.1 | inr f ↦ v.one_each j k u e.1 f.1 ]
  ];
  queued = λ j u h all. elim (moved j _ h) [
    | inl e ↦ cc e.1
    | inr e ↦ absurd (
        e.0 (
          v.one_each j i t
            (subst (λ x. threads j ≡ waits x)
              (some-injective u t (sym (v.queued j u e.1 all) ∙ call)) e.1)
            at))
  ];
  owned = All_both d.waiters (v.apart t call) v.owned;
  called = λ u h. cc;
  tickets = v.tickets;
  apart = λ u h. cc;
  waits_busy = λ j u h. v.serves_busy t call;
  serves_busy = λ u h. cc;
  holds_busy = λ j h. (v.serves_busy t call, refl);
  one_holder = λ j k h l. elim (moved j _ h) [
    | inr e ↦ nobody j e.1
    | inl e ↦ elim (moved k _ l) [ inl f ↦ e.0 ∙ sym f.0 | inr f ↦ nobody k f.1 ]
  ];
  baton = λ h l. Someone-new threads i holds;
}
  where
    moved : (j : ℕ) (x : Caller) → put threads i holds j ≡ x → Moved threads i holds j x
    moved = put-cases threads i holds

    nobody : {A : Type 0} (j : ℕ) → threads j ≡ holds → A
    nobody j h = cc ((v.holds_busy j h).1)

    ticket-eq : (x y : ℕ) → waits x ≡ waits y → x ≡ y
    ticket-eq x y e = cc

    All_both :
        (ws : List (ℕ × ℕ))
        → All (λ w. w.1 ≢ t) ws
        → All (λ w. Someone threads (waits w.1)) ws
        → All (λ w. Someone (put threads i holds) (waits w.1)) ws
    All_both [] h k = tt
    All_both (w ∷ ws) h k = (
      Someone_else threads i holds (waits w.1) (λ e. h.0 (ticket-eq w.1 t (sym e ∙ at))) k.0,
      All_both ws h.1 k.1,
    )

-- A turn that changes nothing.
pub stay-Inv :
    {n : ℕ} {d : DispatchState} {threads : ℕ → Caller} (i : ℕ) (c : Caller)
    → threads i ≡ c
    → Inv n d threads
    → Inv (suc n) d (put threads i c)
stay-Inv {n} {d} {threads} i c at v = subst (Inv (suc n) d) (sym (fun_ext same)) record {
  bound = omega (arith, v.bound);
  fresh = v.fresh;
  one_each = v.one_each;
  queued = v.queued;
  owned = v.owned;
  called = v.called;
  tickets = v.tickets;
  apart = v.apart;
  waits_busy = v.waits_busy;
  serves_busy = v.serves_busy;
  holds_busy = v.holds_busy;
  one_holder = v.one_holder;
  baton = v.baton;
}
  where
    same : (j : ℕ) → put threads i c j ≡ threads j
    same j = elim (put-cases threads i c j _ refl) [
      | inl e ↦ sym e.1 ∙ sym at ∙ ap threads (sym e.0)
      | inr e ↦ sym e.1
    ]

module _ {n : ℕ} {d : DispatchState} {threads : ℕ → Caller} (i : ℕ) (at : threads i ≡ holds)
    (v : Inv n d threads) where
  moved : (j : ℕ) (x : Caller) → put threads i outside j ≡ x → Moved threads i outside j x
  moved = put-cases threads i outside

  alone : {A : Type 0} (j : ℕ) → put threads i outside j ≡ holds → A
  alone j h = elim (moved j _ h) [ inl e ↦ cc e.1 | inr e ↦ absurd (e.0 (v.one_holder j i e.1 at)) ]

  keep : Keeps threads i outside
  keep = Someone_else threads i outside

  one_each_after :
      (j k t : ℕ) → put threads i outside j ≡ waits t → put threads i outside k ≡ waits t → j ≡ k
  one_each_after j k t h l = elim (moved j _ h) [
    | inl e ↦ cc e.1
    | inr e ↦ elim (moved k _ l) [ inl f ↦ cc f.1 | inr f ↦ v.one_each j k t e.1 f.1 ]
  ]

  fresh_after : (j t : ℕ) → put threads i outside j ≡ waits t → t < d.next_ticket
  fresh_after j t h = elim (moved j _ h) [ inl e ↦ cc e.1 | inr e ↦ v.fresh j t e.1 ]

  nothing_called : d.serving ≡ none
  nothing_called = (v.holds_busy i at).1

  -- With nobody waiting, the slot is free.
  pub free-Inv : d.waiters ≡ [] → Inv (suc n) (record d { active = false }) (put threads i outside)
  free-Inv nobody = record {
    bound = omega (arith, v.bound);
    fresh = fresh_after;
    one_each = one_each_after;
    queued = λ j t h all. no_waiter j t h;
    owned = subst (All _) (sym nobody) tt;
    called = λ t h. cc nothing_called;
    tickets = v.tickets;
    apart = v.apart;
    waits_busy = λ j t h. no_waiter j t h;
    serves_busy = λ t h. cc nothing_called;
    holds_busy = λ j h. alone j h;
    one_holder = λ j k h l. alone j h;
    baton = λ h l. cc;
  }
    where
      no_waiter : {A : Type 0} (j t : ℕ) → put threads i outside j ≡ waits t → A
      no_waiter j t h = elim (moved j _ h) [
        | inl e ↦ cc e.1
        | inr e ↦ cc (v.queued j t e.1 (subst (All _) (sym nobody) tt), nothing_called)
      ]

  -- Otherwise the ticket of one waiter is called.
  pub serve-Inv :
      (w : ℕ × ℕ) (rest : List (ℕ × ℕ))
      → Perm (w ∷ rest) d.waiters
      → Inv (suc n) (record d { waiters = rest; serving = some w.1 }) (put threads i outside)
  serve-Inv w rest p = record {
    bound = omega (arith, v.bound);
    fresh = fresh_after;
    one_each = one_each_after;
    queued = λ j t h all. elim (moved j _ h) [
      | inl e ↦ cc e.1
      | inr e ↦ elim (ℕ_discrete w.1 t) [
        | yes same ↦ ap some same
        | no other ↦ cc (
          v.queued j t e.1 (All-Perm (λ x. x.1 ≢ t) (λ x. Π_prop (λ e. ⊥_prop)) p (other, all)),
          nothing_called,
        )
      ]
    ];
    owned = All_imp _ _ rest (λ x s. keep _ (λ e. cc) s) everyone.1;
    called = λ t h.
        subst (λ u. Someone (put threads i outside) (waits u)) (some-injective w.1 t h)
          (keep _ (λ e. cc) everyone.0);
    tickets = distinct.1;
    apart = λ t h.
        subst (λ u. All (λ x. x.1 ≢ u) rest) (some-injective w.1 t h) (unmap rest distinct.0);
    waits_busy = λ j t h. busy;
    serves_busy = λ t h. busy;
    holds_busy = λ j h. alone j h;
    one_holder = λ j k h l. alone j h;
    baton = λ h l. cc;
  }
    where
      busy : d.active ≡ true
      busy = (v.holds_busy i at).0

      everyone : All (λ x. Someone threads (waits x.1)) (w ∷ rest)
      everyone =
          All-Perm (λ x. Someone threads (waits x.1)) (λ x. Π_prop (λ e. ⊥_prop)) (Perm.symm p)
            v.owned

      distinct : Distinct (map (λ x. x.1) (w ∷ rest))
      distinct = Distinct-Perm (Perm.map (λ x. x.1) (Perm.symm p)) v.tickets

      unmap : (xs : List (ℕ × ℕ)) → All (λ y. y ≢ w.1) (map (λ x. x.1) xs) → All (λ x. x.1 ≢ w.1) xs
      unmap [] h = tt
      unmap (x ∷ xs) h = (h.0, unmap xs h.1)
