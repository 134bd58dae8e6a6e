-- ===== src/Context/Manager/Search.antt =====
-- Where the search of `context_switch` ends, and what is switched.
use mathlib.Core.Path.{subst}
use redox.Prelude.{
  ℕ, zero, suc, ◌+◌, ◌<◌, ◌≤◌, ◌≡◌, ◌∙◌, ◌⊎◌, refl, sym, ap, true, false, Bool-cases, Option-cases,
  inl, inr, List, Option, none, some, length, get_elem?, set, get_elem?-set_self, arith, ◌==◌,
  eq_of_==,
}
use redox.Common.Time.{Duration, le}
use redox.Memory.{Layout}
use redox.Context.Manager.{
  Context, ContextManager, Switch, current, advance, clean, due, stops, search_next, kernel_sp,
  switch_from, context_switch,
}
use redox.Context.Manager.Order.{
  Due, awake, timed, Skipped, untimed, early, Chosen, Chosen-clean, first_Chosen, next_Chosen,
  AllKept-set,
}
use redox.Context.Manager.Kept.{Kept, Kept-refl, AllKept, AllKept-trans, AllKept-below}
use redox.Context.Manager.Clean.{
  Idle, Idle-AllKept, Cleaned, clean_from-Cleaned, get_lem, get_elem?_bound,
}

-- The current context may run.
pub record Ready (m : ContextManager) : Type 0 where
  pub enabled : m.enabled ≡ true
  pub context : Context
  pub there : get_elem? m.inner m.i ≡ some context
  pub awake : context.blocked ≡ false
  pub running : context.exited ≡ false

-- The contexts below `n` are as before, and the current one may run, and was due.
pub record Found (now : Duration) (n : ℕ) (m m' : ContextManager) : Type 0 where
  pub kept : AllKept n m.inner m'.inner
  pub ready : Ready m'
  pub chosen : Chosen now m.inner m.i ready.context.pid

due-Kept :
    (now : Duration) (c : Context)
    → (due now c ≡ none) × (c.blocked ≡ true) × Skipped now c
      ⊎ ((c' : Context) × (due now c ≡ some c')
          × Kept c c'
          × (c'.blocked ≡ false)
          × ((xs : List Context) → Due now xs c))
unfolding due
due-Kept now c = elim (Bool-cases c.blocked) [
  | inr f ↦ inr (c, simp (due, f), Kept-refl c, f, λ xs. awake f)
  | inl t ↦ elim (Option-cases c.wake) [
    | inl w ↦ inl (rw (due, t, w) refl, t, untimed t w)
    | inr (wake, w) ↦ elim (Bool-cases (le wake now)) [
      | inl past ↦ inr (
        record c { blocked = false; wake = none },
        rw (due, t, w, past) refl,
        record { pid = refl; exited = refl; awake = λ h. refl },
        refl,
        λ xs. timed w past,
      )
      | inr later ↦ inl (rw (due, t, w, later) refl, t, early t w later)
    ]
  ]
]

module _ (l : Layout) where
  advance-Cleaned :
      (m : ContextManager)
      → m.enabled ≡ true
      → Idle m.inner
      → m.i < length m.inner
      → Cleaned (record m { i = m.i + 1 }) (advance l m)
  unfolding advance clean
  advance-Cleaned m on idle lt =
      clean_from-Cleaned l (length m.inner) (record m { i = m.i + 1 }) on idle (omega arith)
        (omega arith) (omega arith)

  stops_lem :
      (now : Duration) (m : ContextManager) (c : Context)
      → m.enabled ≡ true
      → get_elem? m.inner m.i ≡ some c
      → stops l now m ≡ elim (due now c) [
        | none ↦ none
        | some c' ↦ some (record m { inner = set m.inner m.i c' })
      ]
  unfolding stops current
  stops_lem now m c on e = rw (stops, current, get_lem m m.i c on e) refl

  -- The first context is awake, so that the search does not go on from there.
  advance_next :
      (m : ContextManager)
      → Idle m.inner
      → (a : Cleaned (record m { i = m.i + 1 }) (advance l m)) → a.context.blocked ≡ true
      → (advance l m).i ≡ m.i + 1
  advance_next m idle a t = elim a.index [
    | inr next ↦ next
    | inl (zeroth, end) ↦
        let still = Idle-AllKept (m.i + 1) m.inner (advance l m).inner (omega arith) a.kept idle in
        let same : get_elem? (advance l m).inner 0 ≡ some a.context =
          ap (get_elem? (advance l m).inner) (sym zeroth) ∙ a.there in
        let same' : still.idle ≡ a.context = let first = still.first in cc in
        let f : a.context.blocked ≡ false =
          ap {A = Context} (λ c. c.blocked) (sym same') ∙ still.awake in
        cc
  ]

  search_next-Found :
      (fuel : ℕ) (now : Duration) (current_i : ℕ) (m : ContextManager)
      → m.enabled ≡ true
      → Idle m.inner
      → current_i ≤ m.i
      → m.i < length m.inner
      → length m.inner ≤ fuel + m.i
      → (m' : ContextManager) × (search_next l fuel now current_i m ≡ some m')
        × Found now (current_i + 1) m m'
  unfolding search_next
  search_next-Found zero now current_i m on idle le lt h = absurd (omega arith)
  search_next-Found (suc fuel) now current_i m on idle le lt h =
      let a = advance-Cleaned m on idle lt in
      let m' = advance l m in
      let e = stops_lem now m' a.context a.enabled a.there in
      let kept = AllKept-below (current_i + 1) (m.i + 1) m.inner m'.inner (omega arith) a.kept in
      elim (due-Kept now a.context) [
        | inr (c', some_due, kept', woken, is_due) ↦
            let inner = set m'.inner m'.i c' in
            (
              record m' { inner = inner },
              rw (search_next, e, some_due) refl,
              record {
                kept =
                    AllKept-trans (current_i + 1) m.inner m'.inner inner kept
                      (AllKept-set (current_i + 1) m'.i m'.inner a.context c' a.there kept');
                ready = record {
                  enabled = a.enabled;
                  context = c';
                  there =
                      get_elem?-set_self m'.inner m'.i c'
                        (get_elem?_bound m'.inner m'.i a.context a.there);
                  awake = woken;
                  running = kept'.exited ∙ a.running;
                };
                chosen =
                    Chosen-clean now (record m { i = m.i + 1 }) m' m.i c'.pid refl idle a
                      (subst (Chosen now m'.inner m.i) (sym kept'.pid)
                        (first_Chosen now m m' a (is_due m'.inner)));
              },
            )
        | inl (none_due, t, skipped) ↦
            let next = advance_next m idle a t in
            let apart : (m'.i == current_i) ≡ false = ground arith in
            let short = a.shorter in
            let (m'', found, rest) =
              search_next-Found fuel now current_i m' a.enabled
                (Idle-AllKept (m.i + 1) m.inner m'.inner (omega arith) a.kept idle) (omega arith)
                (get_elem?_bound m'.inner m'.i a.context a.there) (omega arith) in
            (
              m'',
              rw (search_next, e, none_due, apart) found,
              record {
                kept = AllKept-trans (current_i + 1) m.inner m'.inner m''.inner kept rest.kept;
                ready = rest.ready;
                chosen =
                    Chosen-clean now (record m { i = m.i + 1 }) m' m.i rest.ready.context.pid refl
                      idle a
                      (next_Chosen now m m' rest.ready.context.pid a next skipped rest.chosen);
              },
            )
      ]

  -- No switch, or one from the context that called to the one that is current afterwards.
  pub Switched : (caller next : Context) → (i i' : ℕ) → Option Switch → Type 0
  Switched caller next i i' none = i' ≡ i
  Switched caller next i i' (some s) =
      (s.from ≡ caller.pid) × (s.to ≡ next.pid) × (s.sp0 ≡ kernel_sp l next)

  -- What a switch leaves.
  pub record Switches (now : Duration) (caller : Context) (m : ContextManager)
      (r : Option (ContextManager × Option Switch)) : Type 0 where
    pub after : ContextManager
    pub switch : Option Switch
    pub returns : r ≡ some (after, switch)
    pub ready : Ready after
    pub chosen : Chosen now m.inner m.i ready.context.pid
    pub switched : Switched caller ready.context m.i after.i switch

  switch_from-Switches :
      (now : Duration) (m0 m : ContextManager) (caller : Context)
      → get_elem? m.inner m0.i ≡ some caller
      → (ready : Ready m) → Chosen now m0.inner m0.i ready.context.pid
      → Switches now caller m0 (some (switch_from l m0.i m))
  unfolding switch_from kernel_sp Switched
  switch_from-Switches now m0 m caller e ready chosen = elim (Bool-cases (m.i == m0.i)) [
    | inl t ↦ record {
      after = m;
      switch = none;
      returns = rw (switch_from, t) refl;
      ready = ready;
      chosen = chosen;
      switched = eq_of_== m.i m0.i t;
    }
    | inr f ↦
        let next = ready.context in
        let m' : ContextManager = record m {
          inner = set m.inner m.i (record next { switch = next.switch + 1 });
        } in
        let now_e = get_lem m m.i next ready.enabled ready.there in
        let caller_e = get_lem m m0.i caller ready.enabled e in
        record {
          after = m';
          switch = some (record { from = caller.pid; to = next.pid; sp0 = kernel_sp l next });
          returns = rw (switch_from, current, f, now_e, caller_e) refl;
          ready = record {
            enabled = ready.enabled;
            context = record next { switch = next.switch + 1 };
            there =
                get_elem?-set_self m.inner m.i (record next { switch = next.switch + 1 })
                  (get_elem?_bound m.inner m.i next ready.there);
            awake = ready.awake;
            running = ready.running;
          };
          chosen = chosen;
          switched = (refl, refl, refl);
        }
  ]

  context_switch_found :
      (now : Duration) (m m' : ContextManager)
      → m.enabled ≡ true
      → search_next l (length m.inner) now m.i m ≡ some m'
      → context_switch l now m ≡ some (switch_from l m.i m')
  unfolding context_switch
  context_switch_found now m m' on found = rw (context_switch, on, found) refl

  -- Where contexts are enabled, the first one neither waits nor has exited, and the caller is at `i`,
  -- `context_switch` ends at a context that is not blocked and has not exited. When the call began,
  -- that context had not exited either, and it was not blocked, or its time to wake had come, or a
  -- context that has exited and is removed was to wake it. It is the next one: each context between
  -- the caller and it, or behind the caller if it is the first one, had exited, or was blocked and its
  -- time to wake, if it had one, had not come. Unless it is at the caller's index, the registers are
  -- saved to the caller's context and taken from the new one's.
  pub context_switch-Switches :
      (now : Duration) (m : ContextManager) (caller : Context)
      → m.enabled ≡ true
      → Idle m.inner
      → get_elem? m.inner m.i ≡ some caller
      → (c : Context) × Kept caller c × Switches now c m (context_switch l now m)
  context_switch-Switches now m caller on idle e =
      let lt = get_elem?_bound m.inner m.i caller e in
      let (m', found, f) =
        search_next-Found (length m.inner) now m.i m on idle (omega arith) lt (omega arith) in
      let (c, e', kept) = f.kept m.i caller (omega arith) e in
      let s = switch_from-Switches now m m' c e' f.ready f.chosen in
      (
        c,
        kept,
        record {
          after = s.after;
          switch = s.switch;
          returns = context_switch_found now m m' on found ∙ s.returns;
          ready = s.ready;
          chosen = s.chosen;
          switched = s.switched;
        },
      )
