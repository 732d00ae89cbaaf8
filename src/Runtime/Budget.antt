-- ===== src/Runtime/Budget.antt =====
-- crates/crawlrs-runtime/src/supervisor.rs: what the restart budget guarantees.
use crawlrs.Prelude.{
  ℕ, suc, ◌+◌, ◌-◌, ◌*◌, ◌^◌, ◌≤◌, ◌<◌, ◌≡◌, refl, min, true, false, List, [], ◌∷◌, Option, none,
  some, arith, length, leb, ltb, lt→ltb, if◌then◌else◌, inl, inr, ◌⊎◌, Bool-cases, Option-cases,
  ◌∙◌, ap, subst,
}
use crawlrs.Runtime.Supervisor.{
  RestartPolicy, RestartState, new_state, restart, give_up, duration_max, as_millis, scale_of,
  fresh_count, backoff_of, decide_restart, Exit, supervise,
}

-- Each exit comes within the reset window of the restart before it.
abbrev pub Close : ℕ → Option ℕ → List Exit → Type 0
Close window last [] = Unit
Close window none (x ∷ xs) = Close window (some x.now_ms) xs
Close window (some last) (x ∷ xs) = (x.now_ms - last ≤ window) × Close window (some x.now_ms) xs

-- Each exit comes after the reset window of the restart before it, and nothing shuts down.
abbrev pub Spread : ℕ → Option ℕ → List Exit → Type 0
Spread window last [] = Unit
Spread window none (x ∷ xs) =
    (x.shutdown_before ≡ false)
    × (x.shutdown_after ≡ false)
    × (x.shutdown_in_backoff ≡ false)
    × Spread window (some x.now_ms) xs
Spread window (some last) (x ∷ xs) =
    (x.shutdown_before ≡ false)
    × (x.shutdown_after ≡ false)
    × (x.shutdown_in_backoff ≡ false)
    × (window < x.now_ms - last)
    × Spread window (some x.now_ms) xs

backoff_of-suc :
    (p : RestartPolicy) (n : ℕ)
    → n < 32
    → backoff_of p (n + 1) ≡ min (min (p.base_backoff * 2 ^ n) duration_max) p.max_backoff
unfolding backoff_of scale_of
backoff_of-suc p n small = rw (same, lt→ltb n 32 small) refl
  where
    same : n + 1 - 1 ≡ n
    same = omega arith

-- The state after a restart that is granted.
abbrev restarted : ℕ → RestartState → RestartState
restarted now_ms s = record s {
  restart_count = fresh_count now_ms s + 1;
  last_restart_ms = some now_ms;
}

decide_restart-granted :
    (now_ms : ℕ) (s : RestartState)
    → leb s.policy.max_restarts (fresh_count now_ms s) ≡ false
    → decide_restart now_ms s
      ≡ (restart (backoff_of s.policy (fresh_count now_ms s + 1)), restarted now_ms s)
unfolding decide_restart
decide_restart-granted now_ms s h = rw (h, decide_restart) refl

-- While the budget lasts, a decision waits for the base backoff, doubled for each earlier restart
-- of the window, cut off at the policy's limit and at the greatest `Duration`; this holds for the
-- first 32 restarts of a window. With the budget spent, it gives up.
pub decide_restart_doubles :
    (now_ms : ℕ) (s : RestartState)
    → fresh_count now_ms s < 32
    → (decide_restart now_ms s).0 ≡ (
        if ltb (fresh_count now_ms s) s.policy.max_restarts
        then restart (
            min
              (min (s.policy.base_backoff * 2 ^ fresh_count now_ms s) duration_max)
              s.policy.max_backoff)
        else give_up)
unfolding decide_restart
decide_restart_doubles now_ms s small =
    elim (Bool-cases (leb s.policy.max_restarts (fresh_count now_ms s))) [
      | inl spent ↦ rw (spent, decide_restart) (rw (not_below _ _ spent) refl)
      | inr left ↦
          rw (left, decide_restart)
            (rw (below _ _ left)
              (ap restart (backoff_of-suc s.policy (fresh_count now_ms s) small)))
    ]
  where
    not_below : (a b : ℕ) → leb a b ≡ true → ltb b a ≡ false
    not_below a b h = ground arith

    below : (a b : ℕ) → leb a b ≡ false → ltb b a ≡ true
    below a b h = ground arith

-- One exit either ends the supervision, or uses a restart of the budget.
supervise-step :
    (x : Exit) (xs : List Exit) (s : RestartState)
    → (supervise (x ∷ xs) s ≡ [])
      ⊎ ((fresh_count x.now_ms s < s.policy.max_restarts)
          × (supervise (x ∷ xs) s
              ≡ backoff_of s.policy (fresh_count x.now_ms s + 1)
                ∷ supervise xs (restarted x.now_ms s)))
unfolding supervise
supervise-step x xs s = elim (Bool-cases x.shutdown_before) [
  | inl early ↦ inl (rw (early, supervise) refl)
  | inr up ↦ elim (Bool-cases x.shutdown_after) [
    | inl late ↦ inl (rw (up, late, supervise) refl)
    | inr on ↦ elim (Bool-cases (leb s.policy.max_restarts (fresh_count x.now_ms s))) [
      | inl spent ↦
          inl (rw (up, on, supervise) (unfold decide_restart in rw (spent, decide_restart) refl))
      | inr left ↦ elim (Bool-cases x.shutdown_in_backoff) [
        | inl stop ↦
            inl (rw (up, on, supervise) (rw (decide_restart-granted x.now_ms s left, stop) refl))
        | inr go ↦ inr (
          ground (arith, left),
          rw (up, on, supervise)
              (rw (decide_restart-granted x.now_ms s left, go)
                (ap (λ d. backoff_of s.policy (fresh_count x.now_ms s + 1) ∷ supervise xs d.1)
                  (decide_restart-granted x.now_ms s left))),
        )
      ]
    ]
  ]
]

fresh_count-Close :
    (x : Exit) (xs : List Exit) (s : RestartState)
    → Close (as_millis s.policy.reset_window) s.last_restart_ms (x ∷ xs)
    → (fresh_count x.now_ms s ≡ s.restart_count)
      × Close (as_millis s.policy.reset_window) (some x.now_ms) xs
unfolding fresh_count
fresh_count-Close x xs s h = elim (Option-cases s.last_restart_ms) [
  | inl e ↦
      rw (e, fresh_count)
        (refl, subst (λ l. Close (as_millis s.policy.reset_window) l (x ∷ xs)) e h)
  | inr (last, e) ↦
      let k = subst (λ l. Close (as_millis s.policy.reset_window) l (x ∷ xs)) e h in
      rw (e, fresh_count) (rw (not_after _ _ k.0) refl, k.1)
]
  where
    not_after : (a b : ℕ) → a ≤ b → ltb b a ≡ false
    not_after a b h = ground arith

budget_left :
    (xs : List Exit) (s : RestartState)
    → s.restart_count ≤ s.policy.max_restarts
    → Close (as_millis s.policy.reset_window) s.last_restart_ms xs
    → s.restart_count + length (supervise xs s) ≤ s.policy.max_restarts
unfolding supervise
budget_left [] s le h = omega arith
budget_left (x ∷ xs) s le h =
    let k = fresh_count-Close x xs s h in
    elim (supervise-step x xs s) [
      | inl e ↦ omega (arith, ap length e)
      | inr (lt, e) ↦
          omega (arith, ap length e, k.0, budget_left xs (restarted x.now_ms s) (omega arith) k.1)
    ]

-- A worker whose exits all come within the reset window of the restart before is restarted at most
-- `max_restarts` times.
pub supervise_budget :
    (policy : RestartPolicy) (xs : List Exit)
    → Close (as_millis policy.reset_window) none xs
    → length (supervise xs (new_state policy)) ≤ policy.max_restarts
unfolding new_state
supervise_budget policy xs h = omega (arith, budget_left xs (new_state policy) (omega arith) h)

-- A state that a supervisor reaches: nothing is counted before the first restart.
abbrev Counted : RestartState → Type 0
Counted s = s.last_restart_ms ≡ none → s.restart_count ≡ 0

-- What is left of `Spread` behind the first exit.
Spread-tail :
    (w : ℕ) (x : Exit) (xs : List Exit) (last : Option ℕ)
    → Spread w last (x ∷ xs)
    → (x.shutdown_before ≡ false)
      × (x.shutdown_after ≡ false)
      × (x.shutdown_in_backoff ≡ false)
      × Spread w (some x.now_ms) xs
Spread-tail w x xs none h = h
Spread-tail w x xs (some last) h = (h.0, h.1, h.2, h.4)

fresh_count-Spread :
    (x : Exit) (xs : List Exit) (s : RestartState)
    → Counted s
    → Spread (as_millis s.policy.reset_window) s.last_restart_ms (x ∷ xs)
    → fresh_count x.now_ms s ≡ 0
unfolding fresh_count
fresh_count-Spread x xs s c h = elim (Option-cases s.last_restart_ms) [
  | inl e ↦ rw (e, fresh_count) (c e)
  | inr (last, e) ↦
      let k = subst (λ l. Spread (as_millis s.policy.reset_window) l (x ∷ xs)) e h in
      rw (e, fresh_count) (rw (lt→ltb _ _ k.3) refl)
]

respawns :
    (xs : List Exit) (s : RestartState)
    → 0 < s.policy.max_restarts
    → Counted s
    → Spread (as_millis s.policy.reset_window) s.last_restart_ms xs
    → length (supervise xs s) ≡ length xs
unfolding supervise
respawns [] s pos c h = refl
respawns (x ∷ xs) s pos c h =
    let k = Spread-tail _ x xs s.last_restart_ms h in
    let granted = decide_restart-granted x.now_ms s (in_budget (fresh_count-Spread x xs s c h)) in
    rw (k.0, k.1, supervise)
      (rw (granted, k.2)
        (ap (λ d. suc (length (supervise xs d.1))) granted
          ∙ ap suc (respawns xs (restarted x.now_ms s) pos (λ e. absurd (some_ne_none e)) k.3)))
  where
    in_budget : {n : ℕ} → n ≡ 0 → leb s.policy.max_restarts n ≡ false
    in_budget e = ground arith

    some_ne_none : some x.now_ms ≡ none → ⊥
    some_ne_none e = cc

-- A worker that runs longer than the reset window before each exit is respawned every time, however
-- often it exits, unless the crawler shuts down.
pub supervise_stable :
    (policy : RestartPolicy) (xs : List Exit)
    → 0 < policy.max_restarts
    → Spread (as_millis policy.reset_window) none xs
    → length (supervise xs (new_state policy)) ≡ length xs
unfolding new_state
supervise_stable policy xs pos h = respawns xs (new_state policy) pos (λ e. refl) h
