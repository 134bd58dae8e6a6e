-- ===== src/Context/Process/Exit.antt =====
-- What `do_sys_exit` of kernel/syscall/process.rs does to the parent.
use mathlib.Core.Path.{subst}
use redox.Prelude.{
  ℕ, zero, suc, ◌≡◌, ◌≢◌, ◌∙◌, refl, sym, ap, Bool, true, false, ◌||◌, Bool-cases, inl, inr, List,
  [], ◌∷◌, ◌++◌, map, none, some, get_elem?, set, get_elem?-set_ne, ◌==◌, if◌then◌else◌, if_both,
  ne_of_==, ==_refl, arith,
}
use redox.Prelude.Results.{ok}
use redox.Context.Manager.{Context, ContextManager, current, unblock}
use redox.Context.Process.{
  receive, lookup, remove, insert, send_all, exit_one, notified, unblock_all, exit_contexts,
  do_sys_exit,
}

pub has : ℕ → List ℕ → Bool
has w [] = false
has w (p ∷ waiting) = w == p || has w waiting

has-append_left : (w : ℕ) (a b : List ℕ) → has w a ≡ true → has w (a ++ b) ≡ true
unfolding has
has-append_left w [] b h = cc
has-append_left w (p ∷ a) b h = ground (arith, has-append_left w a b)

has-append_right : (w : ℕ) (a b : List ℕ) → has w b ≡ true → has w (a ++ b) ≡ true
unfolding has
has-append_right w [] b h = h
has-append_right w (p ∷ a) b h = ground (arith, has-append_right w a b)

lookup-remove_ne :
    (k j : ℕ) (statuses : List (ℕ × ℕ)) → k ≢ j → lookup k (remove j statuses) ≡ lookup k statuses
unfolding lookup remove
lookup-remove_ne k j [] ne = refl
lookup-remove_ne k j (entry ∷ statuses) ne = ground (arith, lookup-remove_ne k j statuses)

lookup-insert_ne :
    (k j v : ℕ) (statuses : List (ℕ × ℕ))
    → (j == k) ≡ false
    → lookup k (insert j v statuses) ≡ lookup k statuses
unfolding lookup insert
lookup-insert_ne k j v statuses f =
    rw f (lookup-remove_ne k j statuses (λ e. ne_of_== j k f (sym e)))

lookup_first :
    (k : ℕ) (entry : ℕ × ℕ) (entries : List (ℕ × ℕ))
    → lookup k (entry ∷ entries) ≡ none
    → ((entry.0 == k) ≡ false) × (lookup k entries ≡ none)
unfolding lookup
lookup_first k entry entries h = ground arith

lookup-send_all :
    (k : ℕ) (entries statuses : List (ℕ × ℕ))
    → lookup k entries ≡ none
    → lookup k (send_all entries statuses) ≡ lookup k statuses
unfolding send_all
lookup-send_all k [] statuses h = refl
lookup-send_all k (entry ∷ entries) statuses h =
    let (f, h') = lookup_first k entry entries h in
    lookup-send_all k entries (insert entry.0 entry.1 statuses) h'
    ∙ lookup-insert_ne k entry.0 entry.1 statuses f

notified_first :
    (w ppid : ℕ) (c : Context) (rest : List ℕ)
    → (c.pid == ppid) ≡ true
    → has w c.waiting ≡ true
    → has w ((if c.pid == ppid then c.waiting else []) ++ rest) ≡ true
notified_first w ppid c rest t h =
    subst (λ b. has w ((if b then c.waiting else []) ++ rest) ≡ true) (sym t)
      (has-append_left w c.waiting rest h)

has-notified :
    (w ppid j : ℕ) (inner : List Context) (p : Context)
    → get_elem? inner j ≡ some p
    → (p.pid == ppid) ≡ true
    → has w p.waiting ≡ true
    → has w (notified ppid inner) ≡ true
unfolding notified
has-notified w ppid j [] p e t h = cc
has-notified w ppid zero (c ∷ inner) p e t h =
    let same : p ≡ c = cc in
    subst (λ x. has w ((if x.pid == ppid then x.waiting else []) ++ notified ppid inner) ≡ true)
      same (notified_first w ppid p (notified ppid inner) t h)
has-notified w ppid (suc j) (c ∷ inner) p e t h =
    has-append_right w (if c.pid == ppid then c.waiting else []) (notified ppid inner)
      (has-notified w ppid j inner p e t h)

has_rest :
    (w p : ℕ) (waiting : List ℕ)
    → (w == p) ≡ false
    → has w (p ∷ waiting) ≡ true
    → has w waiting ≡ true
unfolding has
has_rest w p waiting f h = ground arith

-- A context behind `unblock`: awake if it was, or if it is one of those that are woken.
pub record Woken (waiting : List ℕ) (c c' : Context) : Type 0 where
  pub pid : c'.pid ≡ c.pid
  pub statuses : c'.statuses ≡ c.statuses
  pub awake : c.blocked ≡ false → c'.blocked ≡ false
  pub woken : has c.pid waiting ≡ true → c'.blocked ≡ false

get_elem?-map :
    (g : Context → Context) (xs : List Context) (j : ℕ) (c : Context)
    → get_elem? xs j ≡ some c
    → get_elem? (map g xs) j ≡ some (g c)
get_elem?-map g [] j c e = cc
get_elem?-map g (x ∷ xs) zero c e = cc
get_elem?-map g (x ∷ xs) (suc j) c e = get_elem?-map g xs j c e

wake : ℕ → Context → Context
wake p c = if c.pid == p then record c { blocked = false } else c

wake-Woken : (p : ℕ) (c : Context) → Woken (p ∷ []) c (wake p c)
unfolding wake has
wake-Woken p c = elim (Bool-cases (c.pid == p)) [
  | inl t ↦ rw t (record { pid = refl; statuses = refl; awake = λ h. refl; woken = λ h. refl })
  | inr f ↦
      rw f
        (record { pid = refl; statuses = refl; awake = λ h. h; woken = λ h. absurd (ground arith) })
]

unblock_all-Woken :
    (waiting : List ℕ) (inner : List Context) (j : ℕ) (c : Context)
    → get_elem? inner j ≡ some c
    → (c' : Context) × (get_elem? (unblock_all waiting inner) j ≡ some c') × Woken waiting c c'
unfolding unblock_all unblock wake has
unblock_all-Woken [] inner j c e =
    (c, e, record { pid = refl; statuses = refl; awake = λ h. h; woken = λ h. cc })
unblock_all-Woken (p ∷ waiting) inner j c e =
    let w = wake-Woken p c in
    let (c', e', r) =
      unblock_all-Woken waiting (map (wake p) inner) j (wake p c)
        (get_elem?-map (wake p) inner j c e) in
    (
      c',
      e',
      record {
        pid = r.pid ∙ w.pid;
        statuses = r.statuses ∙ w.statuses;
        awake = λ h. r.awake (w.awake h);
        woken = λ h. elim (Bool-cases (c.pid == p)) [
          | inl t ↦ r.awake (w.woken (rw t refl))
          | inr f ↦ r.woken (ap (λ n. has n waiting) w.pid ∙ has_rest c.pid p waiting f h)
        ];
      },
    )

exit_one_parent :
    (pid ppid status : ℕ) (entries : List (ℕ × ℕ)) (p : Context)
    → (p.pid == ppid) ≡ true
    → let p' = exit_one pid ppid status entries p in
      (p'.pid ≡ p.pid) × (p'.statuses ≡ send_all entries (insert pid status p.statuses))
unfolding exit_one
exit_one_parent pid ppid status entries p t =
    let c1 : Context = record p {
      statuses = send_all entries (insert pid status p.statuses);
      waiting = [];
    } in
    let P : Context → Type 0 =
      λ x. (x.pid ≡ p.pid) × (x.statuses ≡ send_all entries (insert pid status p.statuses)) in
    let Q : Bool → Type 0 = λ b.
      let x = if b then c1 else p in P (if x.ppid == pid then record x { ppid = ppid } else x) in
    subst Q (sym t) (if_both P (p.ppid == pid) (refl, refl) (refl, refl))

lookup-insert :
    (key value : ℕ) (statuses : List (ℕ × ℕ)) → lookup key (insert key value statuses) ≡ some value
unfolding lookup insert
lookup-insert key value statuses = rw (==_refl key) refl

receive_found :
    (key value : ℕ) (statuses : List (ℕ × ℕ))
    → lookup key statuses ≡ some value
    → receive key statuses ≡ some (value, remove key statuses)
unfolding receive
receive_found key value statuses e = rw (receive, e) refl

exit_contexts_parent :
    (pid ppid status j : ℕ) (entries : List (ℕ × ℕ)) (inner : List Context) (p : Context)
    → get_elem? inner j ≡ some p
    → (p.pid == ppid) ≡ true
    → lookup pid entries ≡ none
    → (p' : Context) × (get_elem? (exit_contexts pid ppid status entries inner) j ≡ some p')
      × (receive pid p'.statuses ≡ some (status, remove pid p'.statuses))
      × (has p.pid p.waiting ≡ true → p'.blocked ≡ false)
unfolding exit_contexts
exit_contexts_parent pid ppid status j entries inner p e t fresh =
    let one = exit_one pid ppid status entries in
    let (pids, sent) = exit_one_parent pid ppid status entries p t in
    let (p', e', w) =
      unblock_all-Woken (notified ppid inner) (map one inner) j (one p)
        (get_elem?-map one inner j p e) in
    let found : lookup pid p'.statuses ≡ some status =
      ap (lookup pid) (w.statuses ∙ sent)
      ∙ lookup-send_all pid entries (insert pid status p.statuses) fresh
      ∙ lookup-insert pid status p.statuses in
    (
      p',
      e',
      receive_found pid status p'.statuses found,
      λ h.
          w.woken
            (ap (λ n. has n (notified ppid inner)) pids ∙ has-notified p.pid ppid j inner p e t h),
    )

-- When a context exits whose own statuses do not name it, its parent, at another place of the table,
-- is not blocked afterwards if it was waiting for its statuses, and its next `receive` of the context's
-- pid gets the exit status.
pub do_sys_exit_parent :
    (status j : ℕ) (m : ContextManager) (c p : Context)
    → current m ≡ ok c
    → j ≢ m.i
    → get_elem? m.inner j ≡ some p
    → p.pid ≡ c.ppid
    → lookup c.pid c.statuses ≡ none
    → (p' : Context) × (get_elem? (do_sys_exit status m).inner j ≡ some p')
      × (receive c.pid p'.statuses ≡ some (status, remove c.pid p'.statuses))
      × (has p.pid p.waiting ≡ true → p'.blocked ≡ false)
unfolding do_sys_exit
do_sys_exit_parent status j m c p now apart e parent fresh =
    let inner = set m.inner m.i (record c { exited = true; statuses = [] }) in
    let t : (p.pid == c.ppid) ≡ true = ground arith in
    let there : get_elem? inner j ≡ some p =
      get_elem?-set_ne m.inner (record c { exited = true; statuses = [] })
        (λ same. apart (sym same))
      ∙ e in
    rw (do_sys_exit, now)
      (exit_contexts_parent c.pid c.ppid status j c.statuses inner p there t fresh)
