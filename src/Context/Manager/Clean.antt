-- ===== src/Context/Manager/Clean.antt =====
-- What `clean` leaves, in a table whose first context is the idle one.
use redox.Prelude.{
  ℕ, zero, suc, ◌+◌, ◌-◌, ◌<◌, ◌≤◌, ◌≡◌, ◌∙◌, ◌⊎◌, refl, ap, sym, true, false, Bool-cases, inl, inr,
  List, [], ◌∷◌, none, some, length, get_elem?, arith, leb, dec_lt, if◌then◌else◌,
}
use redox.Prelude.Results.{ok}
use redox.Memory.{Layout}
use redox.Context.Manager.{
  Context, ContextManager, get, current, wrap_i, exited_current, remove_current, clean_from,
}
use redox.Context.Manager.Woken.{
  AllFrom, AllFrom-refl, AllFrom-trans, Suffix, Suffix-refl, Suffix-trans, remove_current-AllFrom,
  remove_current-Suffix,
}
use redox.Context.Manager.Kept.{AllKept, AllKept-refl, AllKept-trans, remove_current_lem}

-- The first context, `kidle`, neither waits nor exits.
pub record Idle (xs : List Context) : Type 0 where
  pub idle : Context
  pub first : get_elem? xs 0 ≡ some idle
  pub awake : idle.blocked ≡ false
  pub running : idle.exited ≡ false

pub Idle-AllKept : (n : ℕ) (xs ys : List Context) → 1 ≤ n → AllKept n xs ys → Idle xs → Idle ys
Idle-AllKept n xs ys le kept i =
    let (c', e, k) = kept 0 i.idle (omega arith) i.first in
    record { idle = c'; first = e; awake = k.awake i.awake; running = k.exited ∙ i.running }

Idle-length : (xs : List Context) → Idle xs → 1 ≤ length xs
Idle-length [] i = let e = i.first in cc
Idle-length (x ∷ xs) i = omega arith

pub get_elem?_below :
    (xs : List Context) (i : ℕ) → i < length xs → (c : Context) × (get_elem? xs i ≡ some c)
get_elem?_below [] i lt = absurd (omega arith)
get_elem?_below (x ∷ xs) zero lt = (x, refl)
get_elem?_below (x ∷ xs) (suc i) lt = get_elem?_below xs i (omega arith)

pub get_elem?_bound :
    (xs : List Context) (i : ℕ) (c : Context) → get_elem? xs i ≡ some c → i < length xs
get_elem?_bound [] i c e = cc
get_elem?_bound (x ∷ xs) zero c e = omega arith
get_elem?_bound (x ∷ xs) (suc i) c e = omega (arith, get_elem?_bound xs i c e)

-- The index is that of a context that has not exited: the idle one, or the one at `i`. As many as
-- `skip` contexts from `i` on are gone, all of which have exited; those behind them follow in order.
pub record Cleaned (m m' : ContextManager) : Type 0 where
  pub enabled : m'.enabled ≡ true
  pub kept : AllKept m.i m.inner m'.inner
  pub sources : AllFrom m.inner m'.inner
  pub index : ((m'.i ≡ 0) × (length m'.inner ≡ m.i)) ⊎ (m'.i ≡ m.i)
  pub skip : ℕ
  pub removed : length m'.inner + skip ≡ length m.inner
  pub gone :
      (d : ℕ) (x : Context) → d < skip → get_elem? m.inner (m.i + d) ≡ some x → x.exited ≡ true
  pub suffix : Suffix m.inner (m.i + skip) m'.inner m.i
  pub shorter : length m'.inner ≤ length m.inner
  pub context : Context
  pub there : get_elem? m'.inner m'.i ≡ some context
  pub running : context.exited ≡ false

pub get_lem :
    (m : ContextManager) (i : ℕ) (c : Context)
    → m.enabled ≡ true
    → get_elem? m.inner i ≡ some c
    → get m i ≡ ok c
unfolding get
get_lem m i c on e = rw (on, e) refl

wrap_i-below : (m : ContextManager) → m.i < length m.inner → wrap_i m ≡ m
unfolding wrap_i
wrap_i-below m lt = elim (Bool-cases (leb (length m.inner) m.i)) [
  | inl t ↦ absurd (ground arith)
  | inr f ↦ rw f refl
]

wrap_i-end : (m : ContextManager) → m.i ≡ length m.inner → wrap_i m ≡ record m { i = 0 }
unfolding wrap_i
wrap_i-end m e = elim (Bool-cases (leb (length m.inner) m.i)) [
  | inl t ↦
      rw t
        (let z : m.i - length m.inner ≡ 0 = omega arith in ap {A = ℕ} (λ n. record m { i = n }) z)
  | inr f ↦ absurd (ground arith)
]

Cleaned-below : {m m' : ContextManager} → Cleaned m m' → m.i ≤ length m'.inner
Cleaned-below {m' = m'} a = elim a.index [
  | inl (zeroth, end) ↦ omega arith
  | inr same ↦ omega (arith, get_elem?_bound m'.inner m'.i a.context a.there)
]

-- What is gone behind a context that has exited, with that context.
gone_next :
    (c : Context) (m m' : ContextManager) (skip : ℕ) {n : ℕ}
    → get_elem? m.inner m.i ≡ some c
    → c.exited ≡ true
    → suc (length m'.inner) ≡ length m.inner
    → Suffix m.inner (suc m.i) m'.inner m.i
    → n + skip ≡ length m'.inner
    → m.i ≤ n
    → ((d : ℕ) (x : Context) → d < skip → get_elem? m'.inner (m.i + d) ≡ some x → x.exited ≡ true)
    → (d : ℕ) (x : Context) → d < suc skip
    → get_elem? m.inner (m.i + d) ≡ some x
    → x.exited ≡ true
gone_next c m m' skip e t short behind fits le gone zero x lt at =
    let here : get_elem? m.inner m.i ≡ some x = ap (λ k. get_elem? m.inner k) (omega arith) ∙ at in
    let same : c ≡ x = cc in ap {A = Context} (λ c. c.exited) (sym same) ∙ t
gone_next c m m' skip e t short behind fits le gone (suc d) x lt at =
    let (y, at') = get_elem?_below m'.inner (m.i + d) (omega arith) in
    let (x', at'', b) = behind d y at' in
    let here : get_elem? m.inner (suc m.i + d) ≡ some x =
      ap (λ k. get_elem? m.inner k) (omega arith) ∙ at in
    let same : x' ≡ x = cc in
    ap {A = Context} (λ c. c.exited) (sym same) ∙ sym b.exited ∙ gone d y (omega arith) at'

module _ (l : Layout) where
  exited_current_lem :
      (m : ContextManager) (c : Context)
      → m.enabled ≡ true
      → get_elem? m.inner m.i ≡ some c
      → exited_current l m ≡ (if c.exited then some c else none)
  unfolding exited_current current
  exited_current_lem m c on e = rw (exited_current, current, get_lem m m.i c on e) refl

  -- A round without a removal is the last one.
  clean_from_last :
      (fuel : ℕ) (m m' : ContextManager) (c : Context)
      → wrap_i m ≡ m'
      → m'.enabled ≡ true
      → get_elem? m'.inner m'.i ≡ some c
      → c.exited ≡ false
      → clean_from l fuel m ≡ m'
  unfolding clean_from
  clean_from_last zero m m' c w on e f =
      ap wrap_i w ∙ wrap_i-below m' (get_elem?_bound m'.inner m'.i c e)
  clean_from_last (suc fuel) m m' c w on e f =
      let x : exited_current l m' ≡ none =
        exited_current_lem m' c on e ∙ ap (λ b. if b then some c else none) f in
      rw (clean_from, w, x) (ap wrap_i w ∙ wrap_i-below m' (get_elem?_bound m'.inner m'.i c e))

  clean_from_next :
      (fuel : ℕ) (m m' : ContextManager) (c : Context)
      → wrap_i m ≡ m'
      → m'.enabled ≡ true
      → get_elem? m'.inner m'.i ≡ some c
      → c.exited ≡ true
      → clean_from l (suc fuel) m ≡ clean_from l fuel (remove_current l c m')
  unfolding clean_from
  clean_from_next fuel m m' c w on e t =
      let x : exited_current l m' ≡ some c =
        exited_current_lem m' c on e ∙ ap (λ b. if b then some c else none) t in
      rw (clean_from, w, x) (ap (λ n. clean_from l fuel (remove_current l c n)) w)

  end_Cleaned :
      (fuel : ℕ) (m : ContextManager)
      → m.enabled ≡ true
      → Idle m.inner
      → m.i ≡ length m.inner
      → Cleaned m (clean_from l fuel m)
  end_Cleaned fuel m on idle e =
      let fits = Idle-length m.inner idle in
      rw
        (clean_from_last fuel m (record m { i = 0 }) idle.idle (wrap_i-end m e) on idle.first
          idle.running)
        record {
          enabled = on;
          kept = AllKept-refl m.i m.inner;
          sources = AllFrom-refl m.inner;
          index = inl (refl, sym e);
          skip = 0;
          removed = omega arith;
          gone = λ d x lt e. absurd (omega arith);
          suffix = Suffix-refl m.inner m.i;
          shorter = omega arith;
          context = idle.idle;
          there = idle.first;
          running = idle.running;
        }

  -- As many rounds as there are contexts from `i` on are enough.
  pub clean_from-Cleaned :
      (fuel : ℕ) (m : ContextManager)
      → m.enabled ≡ true
      → Idle m.inner
      → 1 ≤ m.i
      → m.i ≤ length m.inner
      → length m.inner ≤ fuel + m.i
      → Cleaned m (clean_from l fuel m)
  unfolding remove_current
  clean_from-Cleaned zero m on idle pos le h = end_Cleaned 0 m on idle (omega arith)
  clean_from-Cleaned (suc fuel) m on idle pos le h = elim (dec_lt m.i (length m.inner)) [
    | no end ↦ end_Cleaned (suc fuel) m on idle (omega arith)
    | yes lt ↦
        let (c, e) = get_elem?_below m.inner m.i lt in
        elim (Bool-cases c.exited) [
          | inr f ↦ rw (clean_from_last (suc fuel) m m c (wrap_i-below m lt) on e f) record {
            enabled = on;
            kept = AllKept-refl m.i m.inner;
            sources = AllFrom-refl m.inner;
            index = inr refl;
            skip = 0;
            removed = omega arith;
            gone = λ d x lt e. absurd (omega arith);
            suffix = Suffix-refl m.inner m.i;
            shorter = omega arith;
            context = c;
            there = e;
            running = f;
          }
          | inl t ↦
              let (kept, short) = remove_current_lem l c m lt in
              let m' = remove_current l c m in
              let from = remove_current-AllFrom l c m e t in
              let behind = remove_current-Suffix l c m e t in
              let rest =
                clean_from-Cleaned fuel m' on (Idle-AllKept m.i m.inner m'.inner pos kept idle) pos
                  (omega arith) (omega arith) in
              rw (clean_from_next fuel m m c (wrap_i-below m lt) on e t) record {
                enabled = rest.enabled;
                kept =
                    AllKept-trans m.i m.inner m'.inner (clean_from l fuel m').inner kept rest.kept;
                sources =
                    AllFrom-trans m.inner m'.inner (clean_from l fuel m').inner from rest.sources;
                index = rest.index;
                skip = suc rest.skip;
                removed = let fewer = rest.removed in omega arith;
                gone =
                    gone_next c m m' rest.skip e t short behind rest.removed (Cleaned-below rest)
                      rest.gone;
                suffix =
                    Suffix-trans m.inner m'.inner (clean_from l fuel m').inner (m.i + suc rest.skip)
                      (suc m.i) m.i m.i rest.skip (omega arith) from behind rest.suffix;
                shorter = let le' = rest.shorter in omega arith;
                context = rest.context;
                there = rest.there;
                running = rest.running;
              }
        ]
  ]
