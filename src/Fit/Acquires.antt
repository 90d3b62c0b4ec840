-- ===== src/Fit/Acquires.antt =====
-- pkg/fit/scheduler.cpp: the operations that make references to tickets, and those that take tasks.
use fuchsia_sdk.Base.{
  ℕ, ◌+◌, ◌-◌, ◌%◌, ◌^◌, ◌≤◌, ◌<◌, ◌≡◌, refl, true, false, ◌&&◌, Option, none, some, List, [], ◌∷◌,
  ◌++◌, arith, ltb, ◌==◌, if◌then◌else◌, All, Bool-cases, inl, inr, is_nil,
}
use fuchsia_sdk.Fit.Tickets.{
  TicketRecord, Tickets, find, update, total, total-emplace, total-update, weight-le-total,
  All-find, All-emplace, All-update,
}
use fuchsia_sdk.Fit.Scheduler.{
  PendingTask, Scheduler, has_task, obtain_ticket, duplicate_ticket, take_suspended, take_all_tasks,
}
use fuchsia_sdk.Fit.Counted.{
  occurs, occurs_in, occurs-append, holds, held, one, refs_of, held_at, task_at, IsReferred,
  IsCounted, Gives, with_ticket-Gives,
}

-- What an operation does that makes so many references to a ticket.
pub record Acquired (k n : ℕ) (s s' : Scheduler) : Type 0 where
  pub counted : IsCounted s'
  pub refs :
      (i : ℕ)
      → total (refs_of i) s'.tickets ≡ total (refs_of i) s.tickets + (if k == i then n else 0)
  pub tasks : (t : ℕ) → total (task_at t) s'.tickets ≡ total (task_at t) s.tickets
  pub elsewhere : (i : ℕ) → total (held_at i) s'.tickets ≡ total (held_at i) s.tickets
  pub runnable : s'.runnable_tasks ≡ s.runnable_tasks
  pub count : s'.suspended_task_count ≡ s.suspended_task_count
  pub above : k < s'.next_ticket
  pub grown : s.next_ticket ≤ s'.next_ticket

find_fresh : (n m : ℕ) (l : Tickets) → n ≤ m → All (IsReferred n) l → find m l ≡ none
unfolding find
find_fresh n m [] h a = refl
find_fresh n m ((k, r) ∷ l) h a =
    let other : (k == m) ≡ false = ground (arith, a.0.1, h) in rw other (find_fresh n m l h a.1)

IsReferred-mono : (n m : ℕ) (l : Tickets) → n ≤ m → All (IsReferred n) l → All (IsReferred m) l
IsReferred-mono n m [] h a = tt
IsReferred-mono n m (x ∷ l) h a =
    ((a.0.0, omega (arith, a.0.1, h), a.0.2), IsReferred-mono n m l h a.1)

-- A fresh ticket has no task.
pub held_at-fresh : (n : ℕ) (l : Tickets) → All (IsReferred n) l → total (held_at n) l ≡ 0
unfolding total
held_at-fresh n [] a = refl
held_at-fresh n ((k, r) ∷ l) a =
    let other : (k == n) ≡ false = ground (arith, a.0.1) in
    rw other (omega (arith, held_at-fresh n l a.1))

-- A ticket that was not given before is given with its references, if fewer than 2^64 have been.
pub obtain_ticket-Acquired :
    (n : ℕ) (s : Scheduler)
    → IsCounted s
    → 0 < n
    → s.next_ticket + 1 < 2 ^ 64
    → Acquired s.next_ticket n s (obtain_ticket n s).1
unfolding obtain_ticket
obtain_ticket-Acquired n s c pos small = record {
  counted = record {
    counted = omega (arith, total-emplace held k r s.tickets fresh, c.counted);
    referred = rw next (
        All-emplace (IsReferred (k + 1)) k r s.tickets
          (IsReferred-mono k (k + 1) s.tickets (omega arith) c.referred)
          (pos, omega arith, λ q. refl));
    few = rw (next, total-emplace one k r s.tickets fresh) (omega (arith, c.few));
    bounded = rw next small;
  };
  refs = λ i. ground (arith, total-emplace (refs_of i) k r s.tickets fresh);
  tasks = λ t. omega (arith, total-emplace (task_at t) k r s.tickets fresh);
  elsewhere = λ i. ground (arith, total-emplace (held_at i) k r s.tickets fresh);
  runnable = refl;
  count = refl;
  above = rw next (omega arith);
  grown = rw next (omega arith);
}
  where
    k : ℕ
    k = s.next_ticket

    r : TicketRecord
    r = record { ref_count = n; was_resumed = false; task = none }

    fresh : find k s.tickets ≡ none
    fresh = find_fresh k k s.tickets (omega arith) c.referred

    next : (k + 1) % 2 ^ 64 ≡ k + 1
    next = omega (arith, small)

-- Another reference is made, if there are fewer than 2^32 - 1.
pub duplicate_ticket-Acquired :
    (k : ℕ) (s : Scheduler)
    → IsCounted s
    → 0 < total (refs_of k) s.tickets
    → total (refs_of k) s.tickets + 1 < 2 ^ 32
    → Gives (Acquired k 1 s) (duplicate_ticket k s)
unfolding duplicate_ticket
duplicate_ticket-Acquired k s c h few =
    with_ticket-Gives (Acquired k 1 s) k s
      (λ r.
        let count = (r.ref_count + 1) % 2 ^ 32 in
        if count == 0
        then none
        else some (record s { tickets = update k (record r { ref_count = count }) s.tickets }))
      c h by_record
  where
    by_record :
        (r : TicketRecord)
        → find k s.tickets ≡ some r
        → 0 < r.ref_count
        → Gives (Acquired k 1 s) (
            if (r.ref_count + 1) % 2 ^ 32 == 0
            then none
            else some (record s {
              tickets = update k (record r { ref_count = (r.ref_count + 1) % 2 ^ 32 }) s.tickets;
            }))
    by_record r q pos =
        let r' : TicketRecord = record r { ref_count = r.ref_count + 1 } in
        let same : (k == k) ≡ true = ground arith in
        let mine : refs_of k k r ≡ r.ref_count = rw same refl in
        let unwrapped : (r.ref_count + 1) % 2 ^ 32 ≡ r.ref_count + 1 =
          omega (arith, few, mine, weight-le-total (refs_of k) k r s.tickets q) in
        let nonzero : (r.ref_count + 1 == 0) ≡ false = ground arith in
        let p = All-find (IsReferred s.next_ticket) k r s.tickets c.referred q in
        rw (unwrapped, nonzero)
          (record {
            counted = record {
              counted = omega (arith, total-update held k r r' s.tickets q, c.counted);
              referred =
                  All-update (IsReferred s.next_ticket) k r' s.tickets (omega arith, p.1, p.2)
                    c.referred;
              few = omega (arith, total-update one k r r' s.tickets q, c.few);
              bounded = c.bounded;
            };
            refs = λ i. ground (arith, total-update (refs_of i) k r r' s.tickets q);
            tasks = λ t. omega (arith, total-update (task_at t) k r r' s.tickets q);
            elsewhere = λ i. ground (arith, total-update (held_at i) k r r' s.tickets q);
            runnable = refl;
            count = refl;
            above = p.1;
            grown = omega arith;
          })

-- What weighs something is not empty.
pub is_nil-of-total : (w : ℕ → TicketRecord → ℕ) (l : Tickets) → 0 < total w l → is_nil l ≡ false
unfolding total
is_nil-of-total w [] h = absurd (omega (arith, h))
is_nil-of-total w (x ∷ l) h = refl

-- What is left of the tickets when the suspended tasks are taken from them.
record Emptied (l : Tickets) (x : List ℕ × Tickets × ℕ) : Type 0 where
  none_counted : x.2 ≡ 0
  counted : total held x.1 ≡ 0
  as_many : total one x.1 ≡ total one l
  refs : (i : ℕ) → total (refs_of i) x.1 ≡ total (refs_of i) l
  tasks : (t : ℕ) → occurs t x.0 ≡ total (task_at t) l
  empty : (t : ℕ) → total (task_at t) x.1 ≡ 0
  referred : (n : ℕ) → All (IsReferred n) l → All (IsReferred n) x.1
  same_nil : is_nil x.1 ≡ is_nil l

abbrev with_front : PendingTask → List ℕ → List ℕ
with_front o tasks = elim o [ none ↦ tasks | some t ↦ t ∷ tasks ]

Emptied-cons :
    (k : ℕ) (r : TicketRecord) (l : Tickets) (x : List ℕ × Tickets × ℕ)
    → Emptied l x
    → (o : PendingTask) → r.task ≡ o
    → Emptied ((k, r) ∷ l) (with_front o x.0, (k, record r { task = none }) ∷ x.1, x.2)
unfolding total occurs
Emptied-cons k r l x e o q = record {
  none_counted = e.none_counted;
  counted = omega (arith, e.counted);
  as_many = omega (arith, e.as_many);
  refs = λ i. omega (arith, e.refs i);
  tasks = λ t. by_task t o q;
  empty = λ t. omega (arith, e.empty t);
  referred = λ m a. ((a.0.0, a.0.1, λ q. refl), e.referred m a.1);
  same_nil = refl;
}
  where
    by_task :
        (t : ℕ) (o : PendingTask)
        → r.task ≡ o
        → occurs t (with_front o x.0) ≡ total (task_at t) ((k, r) ∷ l)
    by_task t none q = rw q (omega (arith, e.tasks t))
    by_task t (some u) q = rw q (ground (arith, e.tasks t))

take_suspended-Emptied :
    (l : Tickets) (count : ℕ) → count ≡ total held l → Gives (Emptied l) (take_suspended l count)
unfolding take_suspended total occurs
take_suspended-Emptied [] count h = record {
  none_counted = h;
  counted = refl;
  as_many = refl;
  refs = λ i. refl;
  tasks = λ t. refl;
  empty = λ t. refl;
  referred = λ n a. a;
  same_nil = refl;
}
take_suspended-Emptied ((k, r) ∷ l) count h = by_task r.task refl (take_suspended-Emptied l)
  where
    by_rest :
        (o : PendingTask)
        → r.task ≡ o
        → (m : Option (List ℕ × Tickets × ℕ)) → Gives (Emptied l) m
        → Gives (Emptied ((k, r) ∷ l)) (elim m [
          | none ↦ none
          | some (tasks, l', n) ↦ some (with_front o tasks, (k, record r { task = none }) ∷ l', n)
        ])
    by_rest o e none g = g
    by_rest o e (some x) g = Emptied-cons k r l x g o e

    by_task :
        (o : PendingTask)
        → r.task ≡ o
        → ((n : ℕ) → n ≡ total held l → Gives (Emptied l) (take_suspended l n))
        → Gives (Emptied ((k, r) ∷ l)) (
            if has_task o && (count == 0)
            then none
            else elim (take_suspended l (if has_task o then count - 1 else count)) [
              | none ↦ none
              | some (tasks, l', n) ↦ some (
                elim o [ none ↦ tasks | some t ↦ t ∷ tasks ],
                (k, record r { task = none }) ∷ l',
                n,
              )
            ])
    by_task none e ih =
        let counts : count ≡ 0 + total held l = rw e at h in
        by_rest none e (take_suspended l count) (ih count (omega (arith, counts)))
    by_task (some u) e ih =
        let counts : count ≡ 1 + total held l = rw e at h in
        let some_counted : (count == 0) ≡ false = ground (arith, counts) in
        rw some_counted (
          by_rest (some u) e (take_suspended l (count - 1))
            (ih (count - 1) (omega (arith, counts))))

-- All tasks are taken, and nothing else changes.
pub record Taken (s : Scheduler) (tasks : List ℕ) (s' : Scheduler) : Type 0 where
  pub counted : IsCounted s'
  pub none_runnable : s'.runnable_tasks ≡ []
  pub none_counted : s'.suspended_task_count ≡ 0
  pub refs : (i : ℕ) → total (refs_of i) s'.tickets ≡ total (refs_of i) s.tickets
  pub all : (t : ℕ) → occurs t tasks ≡ occurs t s.runnable_tasks + total (task_at t) s.tickets
  pub empty : (t : ℕ) → total (task_at t) s'.tickets ≡ 0
  pub unheld : total held s'.tickets ≡ 0

task-le-holds : (t : ℕ) (o : PendingTask) → occurs_in t o ≤ holds o
task-le-holds t none = omega arith
task-le-holds t (some u) = ground arith

pub task-le-held : (t : ℕ) (l : Tickets) → total (task_at t) l ≤ total held l
unfolding total
task-le-held t [] = omega arith
task-le-held t ((k, r) ∷ l) = omega (arith, task-le-holds t r.task, task-le-held t l)

pub take_all_tasks-Taken :
    (s : Scheduler)
    → IsCounted s
    → Gives (λ (x : List ℕ × Scheduler). Taken s x.0 x.1) (take_all_tasks [] s)
unfolding take_all_tasks
take_all_tasks-Taken s c = elim (Bool-cases (ltb 0 s.suspended_task_count)) [
  | inl suspended ↦ rw suspended (
      by_suspended (take_suspended s.tickets s.suspended_task_count)
        (take_suspended-Emptied s.tickets s.suspended_task_count c.counted))
  | inr unsuspended ↦
      let zero_count : s.suspended_task_count ≡ 0 = ground (arith, unsuspended) in
      rw unsuspended (record {
        counted = record {
          counted = c.counted;
          referred = c.referred;
          few = c.few;
          bounded = c.bounded;
        };
        none_runnable = refl;
        none_counted = zero_count;
        refs = λ i. refl;
        all = λ t. omega (arith, zero_count, c.counted, task-le-held t s.tickets);
        empty = λ t. omega (arith, zero_count, c.counted, task-le-held t s.tickets);
        unheld = omega (arith, zero_count, c.counted);
      })
]
  where
    by_suspended :
        (o : Option (List ℕ × Tickets × ℕ))
        → Gives (Emptied s.tickets) o
        → Gives
            (λ (x : List ℕ × Scheduler). Taken s x.0 x.1)
            (elim o [
              | none ↦ none
              | some (more, l, n) ↦ some (
                s.runnable_tasks ++ more,
                record s { runnable_tasks = []; tickets = l; suspended_task_count = n },
              )
            ])
    by_suspended none g = g
    by_suspended (some x) g = record {
      counted = record {
        counted = omega (arith, g.none_counted, g.counted);
        referred = g.referred s.next_ticket c.referred;
        few = omega (arith, g.as_many, c.few);
        bounded = c.bounded;
      };
      none_runnable = refl;
      none_counted = g.none_counted;
      refs = g.refs;
      all = λ t. omega (arith, occurs-append t s.runnable_tasks x.0, g.tasks t);
      empty = g.empty;
      unheld = g.counted;
    }
