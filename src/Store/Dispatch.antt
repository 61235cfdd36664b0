-- ===== src/Store/Dispatch.antt =====
-- internal/store/memory/tasks.go, `Claim`: which task it takes, and in what order.
use mathlib.Core.List.{Memᴰ}
use mathlib.Core.List.Memᴰ.{head, tail}
use mathlib.Core.Path.{subst}
use nit.Base.{
  keep-implies, ℕ, ◌≤◌, ◌≡◌, refl, inl, inr, true, false, some, List, [], ◌∷◌, GoString, is_empty,
  All, count, arith, Bool-cases, ok, err, Result, All-keep, All-keep_of_All, All-mem, All-sort_by,
  keep, str_ltb_irrefl, str_ltb_trans, str_ltb_total, StrictWeak, sort_by-IsLeast, ok-injective,
  str_discrete, find, count-mem, sym, ◌≢◌,
}
use nit.Store.Task.{Task, TaskKind, StoreError, no_task, ClaimOptions}
use nit.Store.Memory.{
  TaskStore, has_id, update, release_expired, claim, claim_time, candidates, is_candidate,
  take_first, task_at, leased, busy_partitions, is_busy, older,
}
use nit.Store.Counts.{runs_in, count-update_one, count-is_busy}
use nit.Store.Invariant.{WellFormed, update-WellFormed, release_expired-WellFormed}

pub older-StrictWeak : StrictWeak older
unfolding older
older-StrictWeak = record {
  asymmetric = λ t u h. ground (arith, str_ltb_irrefl t.id, str_ltb_trans t.id u.id t.id);
  negative = λ t u v h k. ground (
    arith,
    str_ltb_irrefl t.id,
    str_ltb_total t.id u.id,
    str_ltb_total u.id v.id,
    str_ltb_trans u.id t.id v.id,
    str_ltb_trans t.id v.id u.id,
  );
}

-- A task that a claim may take from a list: it is queued, of a kind that is wanted, and nothing of
-- its partition runs.
abbrev pub IsDispatchable : List TaskKind → List Task → Task → Type 0
IsDispatchable kinds ts t = is_candidate kinds (busy_partitions ts) t ≡ true

module _ (kinds : List TaskKind) (ts : List Task) where
  candidates-All :
      (P : Task → Type 0)
      → All P (keep (is_candidate kinds (busy_partitions ts)) ts)
      → All P (candidates kinds ts)
  unfolding candidates
  candidates-All P h = (All-sort_by older P _).1 h

  -- The head of the candidates: a stored task that may be taken, with no older one that may be.
  pub record IsFirst (t : Task) : Type 0 where
    pub member : Memᴰ t ts
    pub dispatchable : IsDispatchable kinds ts t
    pub oldest : All (λ u. IsDispatchable kinds ts u → older u t ≡ false) ts

  pub candidates-IsFirst :
      {t : Task} {rest : List Task} → candidates kinds ts ≡ t ∷ rest → IsFirst t
  unfolding candidates
  candidates-IsFirst {t} {rest} e = record {
    member =
        (subst (All (λ u. Memᴰ u ts)) e
          (candidates-All _ (All-keep_of_All _ _ ts (All-mem (λ u. Memᴰ u ts) ts (λ u m. m))))).0;
    dispatchable = (subst (All (IsDispatchable kinds ts)) e (candidates-All _ (All-keep _ ts))).0;
    oldest = keep-implies _ _ ts (sort_by-IsLeast older older-StrictWeak _ e);
  }

  -- No stored task may be taken.
  abbrev pub NoneDispatchable : Type 0
  NoneDispatchable = All (λ u. IsDispatchable kinds ts u → ⊥) ts

  pub candidates-none : candidates kinds ts ≡ [] → NoneDispatchable
  unfolding candidates
  candidates-none e =
      keep-implies _ (λ u. ⊥) ts
        ((All-sort_by older (λ u. ⊥) _).0 (subst (All (λ u. ⊥)) (sym e) tt))

-- A written task is found under its ID, and the others are found as before.
pub mem-task_at :
    (c : Task) (ts : List Task)
    → count (has_id c.id) ts ≤ 1
    → Memᴰ c ts
    → find (has_id c.id) ts ≡ some c
unfolding find count
mem-task_at c [] one m = elim m [ ]
mem-task_at c (x ∷ xs) one (head e) = rw (← e) (ground arith)
mem-task_at c (x ∷ xs) one (tail m) = ground (arith, mem-task_at c xs, count-mem (has_id c.id) m)

pub find-update_self :
    (id : GoString) (write : Task → Task) (ts : List Task) (c : Task)
    → ((t : Task) → (write t).id ≡ t.id)
    → find (has_id id) ts ≡ some c
    → find (has_id id) (update id write ts) ≡ some (write c)
unfolding find update
find-update_self id write [] c same h = cc
find-update_self id write (t ∷ ts) c same h =
    let ne = find-update_self id write ts c same in
    let kept = same t in
    elim (Bool-cases (has_id id t)) [
      | inl e ↦ let here : t ≡ c = ground arith in rw (← here) (ground arith)
      | inr e ↦ ground arith
    ]

pub find-update_ne :
    (id other : GoString) (write : Task → Task) (ts : List Task)
    → ((t : Task) → (write t).id ≡ t.id)
    → other ≢ id
    → find (has_id other) (update id write ts) ≡ find (has_id other) ts
unfolding find update
find-update_ne id other write [] same h = refl
find-update_ne id other write (t ∷ ts) same h =
    let here = same t in ground (arith, find-update_ne id other write ts same h)

-- The lease that a claim wrote into a task, and the store around it.
module _ (opts : ClaimOptions) (now : ℕ) (token : GoString) (s : TaskStore) where
  pub record Took (t : Task) (after : TaskStore) : Type 0 where
    pub taken : Task
    pub first : IsFirst opts.kinds s.tasks taken
    pub task : t ≡ leased opts now token taken
    pub stored : task_at t.id after ≡ some t
    pub others : (id : GoString) → id ≢ t.id → task_at id after ≡ task_at id s

  -- What a claim from the store `s` may end with.
  abbrev pub ClaimResult : TaskStore × Result StoreError Task → Type 0
  ClaimResult (after, err e) = (e ≡ no_task) × (after ≡ s) × NoneDispatchable opts.kinds s.tasks
  ClaimResult (after, ok t) = Took t after

  ClaimResult-ok :
      (r : TaskStore × Result StoreError Task) (t : Task) → ClaimResult r → r.1 ≡ ok t → Took t r.0
  ClaimResult-ok (after, err e) t h taken = cc
  ClaimResult-ok (after, ok u) t h taken = subst (λ v. Took v after) (ok-injective taken) h

  take_first-ClaimResult :
      WellFormed s
      → (cs : List Task) → candidates opts.kinds s.tasks ≡ cs
      → ClaimResult (take_first opts now token s cs)
  unfolding take_first
  take_first-ClaimResult w [] e = (refl, refl, candidates-none opts.kinds s.tasks e)
  take_first-ClaimResult w (c ∷ cs) e =
      let first = candidates-IsFirst opts.kinds s.tasks e in
      record {
        taken = c;
        first = first;
        task = refl;
        stored =
            find-update_self c.id _ s.tasks c (λ t. refl)
              (mem-task_at c s.tasks (w.one_id c.id) first.member);
        others = λ id ne. find-update_ne c.id id _ s.tasks (λ t. refl) ne;
      }

  -- The partition that is taken was free.
  taken-serial :
      (c : Task)
      → WellFormed s
      → IsFirst opts.kinds s.tasks c
      → (key : GoString) → is_empty key ≡ false
      → count (runs_in key) (update c.id (leased opts now token) s.tasks) ≤ 1
  unfolding is_candidate
  taken-serial c w first key h =
      let least =
        count-update_one (runs_in key) (leased opts now token) c.id c s.tasks (w.one_id c.id)
          first.member (ground arith) in
      let before = w.serial key h in
      let free = count-is_busy key s.tasks h in
      elim (str_discrete c.partition_key key) [
        | yes e ↦
            let idle : is_busy (busy_partitions s.tasks) key ≡ false =
              subst (λ k. is_busy (busy_partitions s.tasks) k ≡ false) e (idle_of e) in
            let none_runs = free idle in ground arith
        | no ne ↦ ground arith
      ]
    where
      idle_of : c.partition_key ≡ key → is_busy (busy_partitions s.tasks) c.partition_key ≡ false
      idle_of e =
          let free_key : is_empty c.partition_key ≡ false = rw e h in
          ground (arith, first.dispatchable)

  take_first-WellFormed :
      WellFormed s
      → (cs : List Task) → candidates opts.kinds s.tasks ≡ cs
      → WellFormed (take_first opts now token s cs).0
  unfolding take_first
  take_first-WellFormed w [] e = w
  take_first-WellFormed w (c ∷ cs) e =
      let first = candidates-IsFirst opts.kinds s.tasks e in
      update-WellFormed s w c first.member (leased opts now token) (λ t. refl) (λ t. refl)
        (λ t. refl) (taken-serial c w first) refl

pub claim-WellFormed :
    (clock : ℕ) (token : GoString) (opts : ClaimOptions) (s : TaskStore)
    → WellFormed s
    → WellFormed (claim clock token opts s).0
unfolding claim
claim-WellFormed clock token opts s w =
    take_first-WellFormed opts _ token _ (release_expired-WellFormed _ s w) _ refl

-- On a well-formed store, after the leases that have run out are released, a claim either finds no
-- stored task that may be taken, answers that there is none and changes nothing more; or it returns
-- a stored task that is queued, of a wanted kind and of a partition in which nothing runs, such that
-- no other task that may be taken is older, now running under a lease with the given holder and
-- token, stores it so, and leaves every other ID with the task it had.
pub claim-ClaimResult :
    (clock : ℕ) (token : GoString) (opts : ClaimOptions) (s : TaskStore)
    → WellFormed s
    → ClaimResult opts
        (claim_time clock opts)
        token
        (release_expired (claim_time clock opts) s).0
        (claim clock token opts s)
unfolding claim
claim-ClaimResult clock token opts s w =
    take_first-ClaimResult opts _ token _ (release_expired-WellFormed _ s w) _ refl

-- A claim that returned a task took it.
pub claim-Took :
    (clock : ℕ) (token : GoString) (opts : ClaimOptions) (s : TaskStore) (t : Task)
    → WellFormed s
    → (claim clock token opts s).1 ≡ ok t
    → Took opts
        (claim_time clock opts)
        token
        (release_expired (claim_time clock opts) s).0
        t
        (claim clock token opts s).0
claim-Took clock token opts s t w taken =
    ClaimResult-ok opts _ token _ (claim clock token opts s) t
      (claim-ClaimResult clock token opts s w) taken
