-- ===== src/Context/Manager/Order.antt =====
-- Which context the search of `context_switch` ends at, kernel/arch/context.rs.
use mathlib.Core.Path.{subst}
use redox.Prelude.{
  ℕ, ℕ_discrete, set, get_elem?-set_self, get_elem?-set_ne, ◌+◌, ◌-◌, ◌<◌, ◌≤◌, ◌≡◌, ◌∙◌, ◌⊎◌, refl,
  sym, ap, true, false, inl, inr, List, none, some, get_elem?, arith, dec_lt,
}
use redox.Common.Time.{Duration, le}
use redox.Context.Manager.{Context, ContextManager}
use redox.Context.Manager.Kept.{Kept, AllKept}
use redox.Context.Manager.Woken.{Released, Became, AllFrom, Released-from}
use redox.Context.Manager.Clean.{Idle, Cleaned, get_elem?_below, get_elem?_bound}

-- Why a context of `xs` may run: it is not blocked, its time to wake has come, or a context that has
-- exited and is removed was to wake it.
pub data Due (now : Duration) (xs : List Context) (c : Context) : Type 0 where
  awake : c.blocked ≡ false → Due now xs c
  timed : {wake : Duration} → c.wake ≡ some wake → le wake now ≡ true → Due now xs c
  released : Released xs c → Due now xs c

-- Why the search passes a context over: it has exited, or it is blocked and its time to wake, if it
-- has one, has not come.
pub data Skipped (now : Duration) (c : Context) : Type 0 where
  exited : c.exited ≡ true → Skipped now c
  untimed : c.blocked ≡ true → c.wake ≡ none → Skipped now c
  early :
      {wake : Duration}
      → c.blocked ≡ true
      → c.wake ≡ some wake
      → le wake now ≡ false
      → Skipped now c

-- The context with this pid was at index `at` of `xs`, had not exited, and was due; the search from
-- `from` on passed over all contexts before it, or, where it is the first one, over all to the end.
pub record Chosen (now : Duration) (xs : List Context) (from pid : ℕ) : Type 0 where
  pub at : ℕ
  pub context : Context
  pub there : get_elem? xs at ≡ some context
  pub named : context.pid ≡ pid
  pub running : context.exited ≡ false
  pub is_due : Due now xs context
  pub later : (at ≡ 0) ⊎ (from < at)
  pub passed :
      (k : ℕ) (x : Context)
      → from < k
      → (at ≡ 0) ⊎ (k < at)
      → get_elem? xs k ≡ some x
      → Skipped now x

Due-from :
    (now : Duration) (xs ys : List Context) (x y : Context)
    → AllFrom xs ys
    → Became xs x y
    → Due now ys y
    → Due now xs x
Due-from now xs ys x y from b (awake f) = elim b.woken [
  | inl same ↦ awake (sym same ∙ f)
  | inr r ↦ released r
]
Due-from now xs ys x y from b (timed e past) = timed (sym b.wake ∙ e) past
Due-from now xs ys x y from b (released r) = released (Released-from xs ys x y from b.pid r)

Skipped-from :
    (now : Duration) (xs : List Context) (x y : Context)
    → Became xs x y
    → Skipped now y
    → Skipped now x
Skipped-from now xs x y b (exited e) = exited (sym b.exited ∙ e)
Skipped-from now xs x y b (untimed h e) = untimed (b.asleep h) (sym b.wake ∙ e)
Skipped-from now xs x y b (early h e f) = early (b.asleep h) (sym b.wake ∙ e) f

-- What the search passes over in the contexts that `clean` leaves, it passes over in those of before.
passed-clean :
    (now : Duration) (m m' : ContextManager) (a : Cleaned m m') (j : ℕ)
    → ((k : ℕ) (x : Context)
        → m.i ≤ k
        → (j ≡ 0) ⊎ (k < j)
        → get_elem? m'.inner k ≡ some x
        → Skipped now x)
    → (k : ℕ) (x : Context) → m.i ≤ k
    → (j ≡ 0) ⊎ (k < j + a.skip)
    → get_elem? m.inner k ≡ some x
    → Skipped now x
passed-clean now m m' a j passed k x le before e = elim (dec_lt (k - m.i) a.skip) [
  | yes lt ↦ exited (a.gone (k - m.i) x lt (ap (λ n. get_elem? m.inner n) (omega arith) ∙ e))
  | no ge ↦
      let bound = get_elem?_bound m.inner k x e in
      let total = a.removed in
      let (y, at) = get_elem?_below m'.inner (k - a.skip) (omega arith) in
      let (x', e', b) =
        a.suffix (k - a.skip - m.i) y (ap (λ n. get_elem? m'.inner n) (omega arith) ∙ at) in
      let here : get_elem? m.inner (m.i + a.skip + (k - a.skip - m.i)) ≡ some x =
        ap (λ n. get_elem? m.inner n) (omega arith) ∙ e in
      let same : x' ≡ x = cc in
      let before' : (j ≡ 0) ⊎ (k - a.skip < j) = elim before [
        | inl z ↦ inl z
        | inr lt ↦ inr (omega arith)
      ] in
      let skipped = passed (k - a.skip) y (omega arith) before' at in
      subst (Skipped now) same (Skipped-from now m.inner x' y b skipped)
]

-- What is chosen among the contexts that `clean` leaves was to be chosen among those of before.
pub Chosen-clean :
    (now : Duration) (m m' : ContextManager) (from pid : ℕ)
    → m.i ≡ from + 1
    → Idle m.inner
    → Cleaned m m'
    → Chosen now m'.inner from pid
    → Chosen now m.inner from pid
Chosen-clean now m m' from pid i idle a c =
    let passed =
      passed-clean now m m' a c.at (λ k x le before e. c.passed k x (omega arith) before e) in
    elim c.later [
      | inl first ↦
          let (c', e', kept) = a.kept 0 idle.idle (omega arith) idle.first in
          let there : get_elem? m'.inner 0 ≡ some c.context =
            ap (λ n. get_elem? m'.inner n) (sym first) ∙ c.there in
          let same : c' ≡ c.context = cc in
          record {
            at = 0;
            context = idle.idle;
            there = idle.first;
            named = sym kept.pid ∙ ap {A = Context} (λ c. c.pid) same ∙ c.named;
            running = idle.running;
            is_due = awake idle.awake;
            later = inl refl;
            passed = λ k x lt before e. passed k x (omega arith) (inl first) e;
          }
      | inr lt ↦
          let (x, e, b) =
            a.suffix (c.at - m.i) c.context
              (ap (λ n. get_elem? m'.inner n) (omega arith) ∙ c.there) in
          record {
            at = c.at + a.skip;
            context = x;
            there = ap (λ n. get_elem? m.inner n) (omega arith) ∙ e;
            named = sym b.pid ∙ c.named;
            running = sym b.exited ∙ c.running;
            is_due = Due-from now m.inner m'.inner x c.context a.sources b c.is_due;
            later = inr (omega arith);
            passed = λ k y lt' before e'.
                passed k y (omega arith)
                  (elim before [ inl z ↦ absurd (omega arith) | inr h ↦ inr h ]) e';
          }
    ]

-- The context that `clean` leaves at the index, where that is due.
pub first_Chosen :
    (now : Duration) (m m' : ContextManager)
    → (a : Cleaned (record m { i = m.i + 1 }) m') → Due now m'.inner a.context
    → Chosen now m'.inner m.i a.context.pid
first_Chosen now m m' a is_due = record {
  at = m'.i;
  context = a.context;
  there = a.there;
  named = refl;
  running = a.running;
  is_due = is_due;
  later = elim a.index [ inl (z, end) ↦ inl z | inr same ↦ inr (omega arith) ];
  passed = λ k x lt before e.
      let bound = get_elem?_bound m'.inner k x e in
      elim a.index [
        | inl (z, end) ↦ absurd (omega arith)
        | inr same ↦ elim before [ inl z ↦ absurd (omega arith) | inr h ↦ absurd (omega arith) ]
      ];
}

-- Where the search goes on from a context that it passes over.
pub next_Chosen :
    (now : Duration) (m m' : ContextManager) (pid : ℕ)
    → (a : Cleaned (record m { i = m.i + 1 }) m') → m'.i ≡ m.i + 1
    → Skipped now a.context
    → Chosen now m'.inner m'.i pid
    → Chosen now m'.inner m.i pid
next_Chosen now m m' pid a next skipped c = record {
  at = c.at;
  context = c.context;
  there = c.there;
  named = c.named;
  running = c.running;
  is_due = c.is_due;
  later = elim c.later [ inl z ↦ inl z | inr lt ↦ inr (omega arith) ];
  passed = λ k x lt before e. elim (ℕ_discrete k m'.i) [
    | no other ↦ c.passed k x (omega arith) before e
    | yes same ↦
        let here : get_elem? m'.inner m'.i ≡ some x = ap (get_elem? m'.inner) (sym same) ∙ e in
        let there = a.there in let same' : a.context ≡ x = cc in subst (Skipped now) same' skipped
  ];
}

-- A context is replaced by the same one.
pub AllKept-set :
    (n i : ℕ) (xs : List Context) (c c' : Context)
    → get_elem? xs i ≡ some c
    → Kept c c'
    → AllKept n xs (set xs i c')
AllKept-set n i xs c c' e kept k d lt at = elim (ℕ_discrete i k) [
  | yes same ↦
      let at' : get_elem? xs i ≡ some d = ap (get_elem? xs) same ∙ at in
      let same' : c ≡ d = cc in
      (
        c',
        ap (get_elem? (set xs i c')) (sym same)
            ∙ get_elem?-set_self xs i c' (get_elem?_bound xs i c e),
        subst (λ x. Kept x c') same' kept,
      )
  | no other ↦
      (d, get_elem?-set_ne xs c' other ∙ at, record { pid = refl; exited = refl; awake = λ h. h })
]
