-- ===== src/Context/Manager/Woken.antt =====
-- Where the contexts that the scheduler of kernel/arch/context.rs leaves come from, and what has woken
-- them.
use mathlib.Core.Path.{subst}
use redox.Prelude.{
  ℕ, zero, suc, ◌+◌, ◌≤◌, arith, ◌≡◌, ◌∙◌, ◌⊎◌, refl, ap, sym, true, Bool-cases, Option-cases, inl,
  inr, List, [], ◌∷◌, map, some, get_elem?, ◌==◌, eq_of_==,
}
use redox.Memory.{Layout}
use redox.Context.Manager.{
  Context, ContextManager, remove_at, unblock, drop_context, remove_current,
}
use redox.Context.Manager.Kept.{woken}

-- A context of a list.
abbrev pub Listed : Context → List Context → Type 0
Listed x xs = (k : ℕ) × (get_elem? xs k ≡ some x)

-- A context that has exited and was to wake this one.
abbrev pub Released : List Context → Context → Type 0
Released xs x = (d : Context) × Listed d xs × (d.exited ≡ true) × (d.vfork ≡ some x.pid)

-- A context `y` that `x` has become: woken, if at all, by the removal of one of `xs`.
pub record Became (xs : List Context) (x y : Context) : Type 0 where
  pub pid : y.pid ≡ x.pid
  pub exited : y.exited ≡ x.exited
  pub wake : y.wake ≡ x.wake
  pub vfork : y.vfork ≡ x.vfork
  pub woken : (y.blocked ≡ x.blocked) ⊎ Released xs x
  pub asleep : y.blocked ≡ true → x.blocked ≡ true

-- Each context of `ys` is what one of `xs` has become.
abbrev pub AllFrom : List Context → List Context → Type 0
AllFrom xs ys = (y : Context) → Listed y ys → (x : Context) × Listed x xs × Became xs x y

Became-refl : (xs : List Context) (x : Context) → Became xs x x
Became-refl xs x = record {
  pid = refl;
  exited = refl;
  wake = refl;
  vfork = refl;
  woken = inl refl;
  asleep = λ h. h;
}

pub AllFrom-refl : (xs : List Context) → AllFrom xs xs
AllFrom-refl xs y at = (y, at, Became-refl xs y)

-- What releases a context of `ys` was one of `xs` that releases what it was.
pub Released-from :
    (xs ys : List Context) (x y : Context)
    → AllFrom xs ys
    → y.pid ≡ x.pid
    → Released ys y
    → Released xs x
Released-from xs ys x y from same (d, at, gone, points) =
    let (d', at', b) = from d at in
    (d', at', sym b.exited ∙ gone, sym b.vfork ∙ points ∙ ap {A = ℕ} (λ p. some p) same)

pub Became-trans :
    (xs ys : List Context) (x y z : Context)
    → AllFrom xs ys
    → Became xs x y
    → Became ys y z
    → Became xs x z
Became-trans xs ys x y z from a b = record {
  pid = b.pid ∙ a.pid;
  exited = b.exited ∙ a.exited;
  wake = b.wake ∙ a.wake;
  vfork = b.vfork ∙ a.vfork;
  woken = elim b.woken [
    | inr released ↦ inr (Released-from xs ys x y from a.pid released)
    | inl same ↦ elim a.woken [ inr released ↦ inr released | inl same' ↦ inl (same ∙ same') ]
  ];
  asleep = λ h. a.asleep (b.asleep h);
}

pub AllFrom-trans : (xs ys zs : List Context) → AllFrom xs ys → AllFrom ys zs → AllFrom xs zs
AllFrom-trans xs ys zs p q z at =
    let (y, at', b) = q z at in
    let (x, at'', a) = p y at' in (x, at'', Became-trans xs ys x y z p a b)

Listed-remove_at :
    (i : ℕ) (xs : List Context) (y : Context) → Listed y (remove_at i xs) → Listed y xs
unfolding remove_at
Listed-remove_at i [] y at = at
Listed-remove_at zero (x ∷ xs) y (k, e) = (suc k, e)
Listed-remove_at (suc i) (x ∷ xs) y (zero, e) = (0, e)
Listed-remove_at (suc i) (x ∷ xs) y (suc k, e) =
    let (j, e') = Listed-remove_at i xs y (k, e) in (suc j, e')

-- `unblock` wakes what the removed context `c` names.
woken-Became :
    (xs : List Context) (c x : Context) (p : ℕ)
    → Listed c xs
    → c.exited ≡ true
    → c.vfork ≡ some p
    → Became xs x (woken p x)
unfolding woken
woken-Became xs c x p at gone points = elim (Bool-cases (x.pid == p)) [
  | inr f ↦ rw f (Became-refl xs x)
  | inl t ↦
      let same : some p ≡ some x.pid = ap {A = ℕ} (λ n. some n) (sym (eq_of_== x.pid p t)) in
      rw t record {
        pid = refl;
        exited = refl;
        wake = refl;
        vfork = refl;
        woken = inr (c, at, gone, points ∙ same);
        asleep = λ h. cc;
      }
]

get_elem?-map_woken :
    (p : ℕ) (xs : List Context) (k : ℕ) (y : Context)
    → get_elem? (map (woken p) xs) k ≡ some y
    → (x : Context) × (get_elem? xs k ≡ some x) × (y ≡ woken p x)
get_elem?-map_woken p [] k y e = cc
get_elem?-map_woken p (x ∷ xs) zero y e = (x, refl, cc)
get_elem?-map_woken p (x ∷ xs) (suc k) y e = get_elem?-map_woken p xs k y e

-- What `unblock` for the removed context `c` of `xs` makes of a context, which stays in its place.
get_elem?-unblock :
    (xs ys : List Context) (c : Context)
    → Listed c xs
    → c.exited ≡ true
    → (k : ℕ) (y : Context) → get_elem? (unblock c.vfork ys) k ≡ some y
    → (x : Context) × (get_elem? ys k ≡ some x) × Became xs x y
unfolding unblock woken
get_elem?-unblock xs ys c at gone k y q = elim (Option-cases c.vfork) [
  | inl e ↦
      let q' : get_elem? ys k ≡ some y = sym (ap (λ v. get_elem? (unblock v ys) k) e) ∙ q in
      (y, q', Became-refl xs y)
  | inr (p, e) ↦
      let q' : get_elem? (map (woken p) ys) k ≡ some y =
        sym (ap (λ v. get_elem? (unblock v ys) k) e) ∙ q in
      let (x, at', same) = get_elem?-map_woken p ys k y q' in
      (x, at', subst (λ z. Became xs x z) (sym same) (woken-Became xs c x p at gone e))
]

get_elem?-remove_behind :
    (i k : ℕ) (xs : List Context) → i ≤ k → get_elem? (remove_at i xs) k ≡ get_elem? xs (suc k)
unfolding remove_at
get_elem?-remove_behind i k [] le = refl
get_elem?-remove_behind zero k (x ∷ xs) le = refl
get_elem?-remove_behind (suc i) zero (x ∷ xs) le = absurd (omega arith)
get_elem?-remove_behind (suc i) (suc k) (x ∷ xs) le = get_elem?-remove_behind i k xs (omega arith)

-- The contexts of `ys` from `q` on are what those of `xs` from `p` on have become, in this order.
abbrev pub Suffix : List Context → ℕ → List Context → ℕ → Type 0
Suffix xs p ys q =
    (d : ℕ) (y : Context)
    → get_elem? ys (q + d) ≡ some y
    → (x : Context) × (get_elem? xs (p + d) ≡ some x) × Became xs x y

pub Suffix-refl : (xs : List Context) (p : ℕ) → Suffix xs (p + 0) xs p
Suffix-refl xs p d y e = (y, ap (λ k. get_elem? xs k) (omega arith) ∙ e, Became-refl xs y)

pub Suffix-trans :
    (xs ys zs : List Context) (o p q r n : ℕ)
    → o ≡ p + n
    → AllFrom xs ys
    → Suffix xs p ys q
    → Suffix ys (q + n) zs r
    → Suffix xs o zs r
Suffix-trans xs ys zs o p q r n same from f g d z e =
    let (y, e', b) = g d z e in
    let at : get_elem? ys (q + (n + d)) ≡ some y = ap (λ k. get_elem? ys k) (omega arith) ∙ e' in
    let (x, e'', a) = f (n + d) y at in
    (x, ap (λ k. get_elem? xs k) (omega arith) ∙ e'', Became-trans xs ys x y z from a b)

module _ (l : Layout) (c : Context) (m : ContextManager) (e : get_elem? m.inner m.i ≡ some c)
    (gone : c.exited ≡ true) where
  -- The contexts behind the removal of one that has exited.
  pub remove_current-AllFrom : AllFrom m.inner (remove_current l c m).inner
  unfolding remove_current drop_context
  remove_current-AllFrom y (k, q) =
      let (x, at, b) = get_elem?-unblock m.inner (remove_at m.i m.inner) c (m.i, e) gone k y q in
      (x, Listed-remove_at m.i m.inner x (k, at), b)

  pub remove_current-Suffix : Suffix m.inner (suc m.i) (remove_current l c m).inner m.i
  unfolding remove_current drop_context
  remove_current-Suffix d y q =
      let (x, at, b) =
        get_elem?-unblock m.inner (remove_at m.i m.inner) c (m.i, e) gone (m.i + d) y q in
      let behind = get_elem?-remove_behind m.i (m.i + d) m.inner (omega arith) in
      (x, ap (λ k. get_elem? m.inner k) (omega arith) ∙ sym behind ∙ at, b)
