-- ===== src/Fit/Counted.antt =====
-- pkg/fit/scheduler.cpp: what its operations keep, and why their assertions hold.
use fuchsia_sdk.Base.{
  ℕ, suc, ◌+◌, ◌-◌, ◌%◌, ◌^◌, ◌≤◌, ◌<◌, ◌≡◌, ◌≢◌, refl, Bool, true, false, Option, none, some, List,
  [], ◌∷◌, ◌++◌, arith, ◌==◌, if◌then◌else◌, All,
}
use fuchsia_sdk.Fit.Tickets.{
  TicketRecord, Tickets, find, settle, total, total-settle, weight-le-total, find-ne-none, All-find,
  All-settle,
}
use fuchsia_sdk.Fit.Scheduler.{PendingTask, Scheduler, with_ticket}

-- How often a task is in a list, and in a place that holds one at most.
unfoldable pub occurs : ℕ → List ℕ → ℕ
occurs t [] = 0
occurs t (u ∷ l) = if u == t then suc (occurs t l) else occurs t l

abbrev pub occurs_in : ℕ → PendingTask → ℕ
occurs_in t none = 0
occurs_in t (some u) = if u == t then 1 else 0

pub occurs-append : (t : ℕ) (l m : List ℕ) → occurs t (l ++ m) ≡ occurs t l + occurs t m
unfolding occurs
occurs-append t [] m = omega arith
occurs-append t (u ∷ l) m = ground (arith, occurs-append t l m)

pub occurs-push :
    (t u : ℕ) (l : List ℕ) → occurs t (l ++ u ∷ []) ≡ occurs t l + occurs_in t (some u)
unfolding occurs
occurs-push t u l = ground (arith, occurs-append t l (u ∷ []))

-- What a record weighs: whether it has a task, that it is there, its references if it is of one
-- ticket, whether it has a task and is of one ticket, and whether it has one task.
abbrev pub holds : PendingTask → ℕ
holds none = 0
holds (some t) = 1

abbrev pub held : ℕ → TicketRecord → ℕ
held k r = holds r.task

abbrev pub one : ℕ → TicketRecord → ℕ
one k r = 1

abbrev pub refs_of : ℕ → ℕ → TicketRecord → ℕ
refs_of i k r = if k == i then r.ref_count else 0

abbrev pub held_at : ℕ → ℕ → TicketRecord → ℕ
held_at i k r = if k == i then holds r.task else 0

abbrev pub task_at : ℕ → ℕ → TicketRecord → ℕ
task_at t k r = occurs_in t r.task

-- A record is referred to, its ticket is below the next, and once resumed it has no task.
abbrev pub IsReferred : ℕ → ℕ × TicketRecord → Type 0
IsReferred next x = (0 < x.1.ref_count) × (x.0 < next) × (x.1.was_resumed ≡ true → x.1.task ≡ none)

-- The count is the number of records with a task, and every record is as it should be.
pub record IsCounted (s : Scheduler) : Type 0 where
  pub counted : s.suspended_task_count ≡ total held s.tickets
  pub referred : All (IsReferred s.next_ticket) s.tickets
  pub few : total one s.tickets < s.next_ticket
  pub bounded : s.next_ticket < 2 ^ 64

-- What an operation does that consumes a reference to a ticket, is given a task and gives one.
pub record Released (k : ℕ) (given left : PendingTask) (s s' : Scheduler) : Type 0 where
  pub counted : IsCounted s'
  pub refs :
      (i : ℕ)
      → total (refs_of i) s'.tickets + (if k == i then 1 else 0) ≡ total (refs_of i) s.tickets
  pub tasks :
      (t : ℕ)
      → occurs t s'.runnable_tasks + total (task_at t) s'.tickets + occurs_in t left
        ≡ occurs t s.runnable_tasks + total (task_at t) s.tickets + occurs_in t given
  pub unheld :
      (i : ℕ)
      → total (held_at i) s'.tickets
        ≤ total (held_at i) s.tickets + (if k == i then holds given else 0)
  pub same_next : s'.next_ticket ≡ s.next_ticket

pub find_of_refs : (k : ℕ) (l : Tickets) → 0 < total (refs_of k) l → find k l ≢ none
find_of_refs k l h = find-ne-none (refs_of k) k l (λ i r q. rw q refl) h

-- The operation gives a result, of which P holds.
abbrev pub Gives {ℓ} : {A : Type ℓ} → (A → Type 0) → Option A → Type 0
Gives P none = ⊥
Gives P (some a) = P a

pub if-Holds {ℓ} :
    {A : Type ℓ} (P : A → Type 0) (b : Bool) (x y : A)
    → (b ≡ true → P x)
    → (b ≡ false → P y)
    → P (if b then x else y)
if-Holds P true x y i j = i refl
if-Holds P false x y i j = j refl

-- A ticket that is referred to has a record, with a reference.
pub with_ticket-Gives :
    {A : Type 0} (P : A → Type 0) (k : ℕ) (s : Scheduler) (f : TicketRecord → Option A)
    → IsCounted s
    → 0 < total (refs_of k) s.tickets
    → ((r : TicketRecord) → find k s.tickets ≡ some r → 0 < r.ref_count → Gives P (f r))
    → Gives P (with_ticket k s f)
with_ticket-Gives P k s f c h j = by_find (find k s.tickets) refl
  where
    by_find :
        (o : Option TicketRecord)
        → find k s.tickets ≡ o
        → Gives P (elim o [ none ↦ none | some r ↦ if r.ref_count == 0 then none else f r ])
    by_find none q = absurd (find_of_refs k s.tickets h q)
    by_find (some r) q =
        let p = All-find (IsReferred s.next_ticket) k r s.tickets c.referred q in
        let nonzero : (r.ref_count == 0) ≡ false = ground (arith, p.0) in rw nonzero (j r q p.0)

abbrev pub weight_at : (ℕ → TicketRecord → ℕ) → ℕ → TicketRecord → ℕ
weight_at w k r = w k r

-- A record loses a reference; its task and the rest of the scheduler change together.
pub settle-Released :
    (k : ℕ) (given left : PendingTask) (s s' : Scheduler) (r r' : TicketRecord)
    → IsCounted s
    → find k s.tickets ≡ some r
    → 0 < r.ref_count
    → r'.ref_count ≡ r.ref_count - 1
    → s'.tickets ≡ settle k r' s.tickets
    → s'.next_ticket ≡ s.next_ticket
    → (r'.was_resumed ≡ true → r'.task ≡ none)
    → ((r'.ref_count == 0) ≡ true → r'.task ≡ none)
    → holds r'.task ≤ holds r.task + holds given
    → s'.suspended_task_count + holds r.task ≡ s.suspended_task_count + holds r'.task
    → ((t : ℕ)
        → occurs t s'.runnable_tasks + occurs_in t r'.task + occurs_in t left
          ≡ occurs t s.runnable_tasks + occurs_in t r.task + occurs_in t given)
    → Released k given left s s'
settle-Released k given left s s' r r' c q pos less tickets next resumed dropped fewer count moved =
    record {
      counted = record {
        counted =
            rw tickets
              (ground (arith, count, c.counted, total-settle held k r r' s.tickets q, dropped));
        referred =
            rw (tickets, next)
              (All-settle (IsReferred s.next_ticket) k r' s.tickets c.referred (λ n. (
                ground (arith, n),
                (All-find (IsReferred s.next_ticket) k r s.tickets c.referred q).1,
                resumed,
              )));
        few = rw (tickets, next) (ground (arith, c.few, total-settle one k r r' s.tickets q));
        bounded = rw next c.bounded;
      };
      refs =
          λ i. rw tickets (ground (arith, total-settle (refs_of i) k r r' s.tickets q, less, pos));
      tasks = λ t.
          rw tickets
            (ground (arith, total-settle (task_at t) k r r' s.tickets q, moved t, dropped));
      unheld = λ i. rw tickets (ground (arith, total-settle (held_at i) k r r' s.tickets q, fewer));
      same_next = next;
    }

-- The count is positive where a record has a task.
pub counted_pos :
    (k t : ℕ) (s : Scheduler) (r : TicketRecord)
    → IsCounted s
    → find k s.tickets ≡ some r
    → r.task ≡ some t
    → 0 < s.suspended_task_count
counted_pos k t s r c q h =
    let w : holds r.task ≡ 1 = rw h refl in
    omega (arith, c.counted, weight-le-total held k r s.tickets q, w)

total-le-one : (l : Tickets) → total held l ≤ total one l
unfolding total
total-le-one [] = omega arith
total-le-one ((k, r) ∷ l) = by_task r.task (total-le-one l)
  where
    by_task :
        (o : PendingTask) → total held l ≤ total one l → holds o + total held l ≤ 1 + total one l
    by_task none h = omega (arith, h)
    by_task (some t) h = omega (arith, h)

-- Another task can be counted without wrapping around.
pub count-small :
    (s : Scheduler)
    → IsCounted s
    → (s.suspended_task_count + 1) % 2 ^ 64 ≡ s.suspended_task_count + 1
count-small s c =
    let h : s.suspended_task_count + 1 < 2 ^ 64 =
      omega (arith, c.counted, c.few, c.bounded, total-le-one s.tickets) in
    omega (arith, h)
