-- ===== src/Context/Manager/Kept.antt =====
-- What the scheduler of kernel/arch/context.rs leaves of the contexts before an index.
use redox.Prelude.{
  ℕ, zero, suc, ◌<◌, ◌≤◌, ◌≡◌, ◌∙◌, refl, ap, false, Bool-cases, inl, inr, List, [], ◌∷◌, map,
  Option, none, some, length, get_elem?, length-map, arith, ◌==◌, if◌then◌else◌,
}
use redox.Memory.{Layout}
use redox.Context.Manager.{
  Context, ContextManager, remove_at, unblock, drop_context, remove_current,
}

-- The same context, which stays awake if it was.
pub record Kept (c c' : Context) : Type 0 where
  pub pid : c'.pid ≡ c.pid
  pub exited : c'.exited ≡ c.exited
  pub awake : c.blocked ≡ false → c'.blocked ≡ false

-- The contexts below `n` are in their places.
abbrev pub AllKept : ℕ → List Context → List Context → Type 0
AllKept n xs ys =
    (k : ℕ) (c : Context)
    → k < n
    → get_elem? xs k ≡ some c
    → (c' : Context) × (get_elem? ys k ≡ some c') × Kept c c'

pub Kept-refl : (c : Context) → Kept c c
Kept-refl c = record { pid = refl; exited = refl; awake = λ h. h }

pub Kept-trans : {a b c : Context} → Kept a b → Kept b c → Kept a c
Kept-trans p q = record {
  pid = q.pid ∙ p.pid;
  exited = q.exited ∙ p.exited;
  awake = λ h. q.awake (p.awake h);
}

pub AllKept-refl : (n : ℕ) (xs : List Context) → AllKept n xs xs
AllKept-refl n xs k c lt e = (c, e, Kept-refl c)

pub AllKept-trans :
    (n : ℕ) (xs ys zs : List Context) → AllKept n xs ys → AllKept n ys zs → AllKept n xs zs
AllKept-trans n xs ys zs p q k c lt e =
    let (c', e', h) = p k c lt e in let (c'', e'', h') = q k c' lt e' in (c'', e'', Kept-trans h h')

-- Fewer contexts are kept too.
pub AllKept-below : (n m : ℕ) (xs ys : List Context) → n ≤ m → AllKept m xs ys → AllKept n xs ys
AllKept-below n m xs ys le p k c lt e = p k c (omega arith) e

get_elem?-remove_at :
    (i k : ℕ) (xs : List Context) → k < i → get_elem? (remove_at i xs) k ≡ get_elem? xs k
unfolding remove_at
get_elem?-remove_at i k [] lt = refl
get_elem?-remove_at zero k (x ∷ xs) lt = absurd (omega arith)
get_elem?-remove_at (suc i) zero (x ∷ xs) lt = refl
get_elem?-remove_at (suc i) (suc k) (x ∷ xs) lt = get_elem?-remove_at i k xs (omega arith)

length-remove_at :
    (i : ℕ) (xs : List Context) → i < length xs → suc (length (remove_at i xs)) ≡ length xs
unfolding remove_at
length-remove_at i [] lt = absurd (omega arith)
length-remove_at zero (x ∷ xs) lt = refl
length-remove_at (suc i) (x ∷ xs) lt = omega (arith, length-remove_at i xs)

length-unblock : (p : Option ℕ) (xs : List Context) → length (unblock p xs) ≡ length xs
unfolding unblock
length-unblock none xs = refl
length-unblock (some p) xs = length-map xs _

-- `unblock` at one context.
unfoldable pub woken : ℕ → Context → Context
woken p c = if c.pid == p then record c { blocked = false } else c

woken-Kept : (p : ℕ) (c : Context) → Kept c (woken p c)
unfolding woken
woken-Kept p c = elim (Bool-cases (c.pid == p)) [
  | inl t ↦ rw t (record { pid = refl; exited = refl; awake = λ h. refl })
  | inr t ↦ rw t (Kept-refl c)
]

get_elem?-woken :
    (p : ℕ) (xs : List Context) (k : ℕ) (c : Context)
    → get_elem? xs k ≡ some c
    → get_elem? (map (woken p) xs) k ≡ some (woken p c)
get_elem?-woken p [] k c e = cc
get_elem?-woken p (x ∷ xs) zero c e = cc
get_elem?-woken p (x ∷ xs) (suc k) c e = get_elem?-woken p xs k c e

AllKept-unblock : (n : ℕ) (p : Option ℕ) (xs : List Context) → AllKept n xs (unblock p xs)
unfolding unblock woken
AllKept-unblock n none xs k c lt e = (c, e, Kept-refl c)
AllKept-unblock n (some p) xs k c lt e = (woken p c, get_elem?-woken p xs k c e, woken-Kept p c)

module _ (l : Layout) where
  -- The contexts before the one that is removed stay, and one context is gone.
  pub remove_current_lem :
      (c : Context) (m : ContextManager)
      → m.i < length m.inner
      → let m' = remove_current l c m in
        AllKept m.i m.inner m'.inner × (suc (length m'.inner) ≡ length m.inner)
  unfolding remove_current drop_context
  remove_current_lem c m lt = (
    AllKept-trans m.i m.inner (remove_at m.i m.inner) (unblock c.vfork (remove_at m.i m.inner))
        (λ k d l e. (d, get_elem?-remove_at m.i k m.inner l ∙ e, Kept-refl d))
        (AllKept-unblock m.i c.vfork (remove_at m.i m.inner)),
    ap suc (length-unblock c.vfork (remove_at m.i m.inner)) ∙ length-remove_at m.i m.inner lt,
  )
