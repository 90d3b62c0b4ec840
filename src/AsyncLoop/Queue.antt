-- ===== src/AsyncLoop/Queue.antt =====
-- The order of the task queue: what `async_loop_insert_task_locked` and the extraction of the due
-- tasks in pkg/async_loop/loop.c do to it.
use mathlib.Core.List.{reverse, reverse-append, reverse-reverse}
use fuchsia_sdk.Base.{
  ℕ, ◌≤◌, ◌<◌, ◌≡◌, refl, ap, ◌∙◌, true, inl, inr, List, [], ◌∷◌, ◌++◌, arith, ltb, All, All-append,
  Bool-cases, ◌==◌,
}
use fuchsia_sdk.AsyncLoop.Types.{Task}
use fuchsia_sdk.AsyncLoop.Tasks.{insert_from_tail, insert_task, delete_task}
use fuchsia_sdk.AsyncLoop.Dispatch.{split_due}

-- Every deadline of the list is at most d; every one is later than d; every one is at least d.
abbrev pub AllDue : ℕ → List Task → Type 0
AllDue d = All (λ t. t.deadline ≤ d)

abbrev pub AllLater : ℕ → List Task → Type 0
AllLater d = All (λ t. d < t.deadline)

abbrev pub AllFrom : ℕ → List Task → Type 0
AllFrom d = All (λ t. d ≤ t.deadline)

-- Earliest deadline first.
abbrev pub IsSorted : List Task → Type 0
IsSorted [] = Unit
IsSorted (t ∷ l) = AllFrom t.deadline l × IsSorted l

pub AllFrom-later : (d e : ℕ) (l : List Task) → d < e → AllFrom e l → AllLater d l
AllFrom-later d e [] h a = tt
AllFrom-later d e (t ∷ l) h a = (omega arith, AllFrom-later d e l h a.1)

pub AllFrom-le : (d e : ℕ) (l : List Task) → d ≤ e → AllFrom e l → AllFrom d l
AllFrom-le d e [] h a = tt
AllFrom-le d e (t ∷ l) h a = (omega arith, AllFrom-le d e l h a.1)

-- The two parts of a split make up the list.
pub split_due-append : (d : ℕ) (l : List Task) → (split_due d l).0 ++ (split_due d l).1 ≡ l
unfolding split_due
split_due-append d [] = refl
split_due-append d (t ∷ l) = ground (arith, split_due-append d l)

pub split_due-AllDue : (d : ℕ) (l : List Task) → AllDue d (split_due d l).0
unfolding split_due
split_due-AllDue d [] = tt
split_due-AllDue d (t ∷ l) = elim (Bool-cases (ltb d t.deadline)) [
  | inl late ↦ rw late tt
  | inr due ↦ rw due (ground arith, split_due-AllDue d l)
]

pub split_due-AllLater : (d : ℕ) (l : List Task) → IsSorted l → AllLater d (split_due d l).1
unfolding split_due
split_due-AllLater d [] s = tt
split_due-AllLater d (t ∷ l) s = elim (Bool-cases (ltb d t.deadline)) [
  | inl late ↦ rw late (ground arith, AllFrom-later d t.deadline l (ground arith) s.0)
  | inr due ↦ rw due (split_due-AllLater d l s.1)
]

split_of_AllLater : (d : ℕ) (l : List Task) → AllLater d l → split_due d l ≡ ([], l)
unfolding split_due
split_of_AllLater d [] a = refl
split_of_AllLater d (t ∷ l) a = ground arith

-- The scan passes every node that is later than the task.
scan_later :
    (task : Task) (l : List Task)
    → AllLater task.deadline l
    → insert_from_tail task l ≡ l ++ task ∷ []
unfolding insert_from_tail
scan_later task [] a = refl
scan_later task (t ∷ l) a = ground (arith, scan_later task l a.1)

-- A node that is not later than the task stays before it.
scan_stops :
    (task u : Task) (l : List Task)
    → u.deadline ≤ task.deadline
    → insert_from_tail task (l ++ u ∷ []) ≡ insert_from_tail task l ++ u ∷ []
unfolding insert_from_tail
scan_stops task u [] h = ground arith
scan_stops task u (t ∷ l) h = ground (arith, scan_stops task u l h)

AllLater-reverse : (d : ℕ) (l : List Task) → AllLater d l → AllLater d (reverse l)
AllLater-reverse d [] a = tt
AllLater-reverse d (t ∷ l) a =
    rw (reverse-append (t ∷ []) l)
      (All-append (λ u. d < u.deadline) (reverse l) (t ∷ []) (AllLater-reverse d l a.1) (a.0, tt))

-- On a queue in order, the scan from the tail puts the task behind every task that is not later,
-- those of the same deadline included, and before every task that is later.
pub insert_task_lem :
    (task : Task) (l : List Task)
    → IsSorted l
    → insert_task task l ≡ (split_due task.deadline l).0 ++ task ∷ (split_due task.deadline l).1
unfolding insert_task split_due insert_from_tail
insert_task_lem task [] s = refl
insert_task_lem task (u ∷ l) s = elim (Bool-cases (ltb task.deadline u.deadline)) [
  | inl late ↦ rw late (ap reverse (scan_later task (reverse (u ∷ l)) (all_later late)) ∙ back)
  | inr due ↦ rw due (
      ap reverse (
        ap (insert_from_tail task) (reverse-append (u ∷ []) l)
        ∙ scan_stops task u (reverse l) (ground arith))
      ∙ reverse-append (insert_from_tail task (reverse l)) (u ∷ [])
      ∙ ap (λ r. u ∷ r) (insert_task_lem task l s.1))
]
  where
    all_later : ltb task.deadline u.deadline ≡ true → AllLater task.deadline (reverse (u ∷ l))
    all_later late =
        AllLater-reverse task.deadline (u ∷ l)
          (ground arith, AllFrom-later task.deadline u.deadline l (ground arith) s.0)

    back : reverse (reverse (u ∷ l) ++ task ∷ []) ≡ task ∷ u ∷ l
    back =
        reverse-append (reverse (u ∷ l)) (task ∷ []) ∙ ap (λ r. task ∷ r) (reverse-reverse (u ∷ l))

AllFrom-insert :
    (d : ℕ) (task : Task) (l : List Task)
    → d ≤ task.deadline
    → AllFrom d l
    → AllFrom d ((split_due task.deadline l).0 ++ task ∷ (split_due task.deadline l).1)
unfolding split_due
AllFrom-insert d task [] h a = (h, tt)
AllFrom-insert d task (u ∷ l) h a = elim (Bool-cases (ltb task.deadline u.deadline)) [
  | inl late ↦ rw late (h, a)
  | inr due ↦ rw due (a.0, AllFrom-insert d task l h a.1)
]

split-insert-IsSorted :
    (task : Task) (l : List Task)
    → IsSorted l
    → IsSorted ((split_due task.deadline l).0 ++ task ∷ (split_due task.deadline l).1)
unfolding split_due
split-insert-IsSorted task [] s = (tt, tt)
split-insert-IsSorted task (u ∷ l) s = elim (Bool-cases (ltb task.deadline u.deadline)) [
  | inl late ↦
      rw late (((ground arith), AllFrom-le task.deadline u.deadline l (ground arith) s.0), s)
  | inr due ↦
      rw due (AllFrom-insert u.deadline task l (ground arith) s.0, split-insert-IsSorted task l s.1)
]

-- Inserting a task keeps the queue in order of the deadlines.
pub insert_task-IsSorted :
    (task : Task) (l : List Task) → IsSorted l → IsSorted (insert_task task l)
insert_task-IsSorted task l s = rw (insert_task_lem task l s) (split-insert-IsSorted task l s)

AllFrom-delete : (d i : ℕ) (l : List Task) → AllFrom d l → AllFrom d (delete_task i l)
unfolding delete_task
AllFrom-delete d i [] a = tt
AllFrom-delete d i (t ∷ l) a = elim (Bool-cases (t.id == i)) [
  | inl found ↦ rw found a.1
  | inr other ↦ rw other (a.0, AllFrom-delete d i l a.1)
]

-- Deleting a task keeps the order.
pub delete_task-IsSorted : (i : ℕ) (l : List Task) → IsSorted l → IsSorted (delete_task i l)
unfolding delete_task
delete_task-IsSorted i [] s = tt
delete_task-IsSorted i (t ∷ l) s = elim (Bool-cases (t.id == i)) [
  | inl found ↦ rw found s.1
  | inr other ↦ rw other (AllFrom-delete t.deadline i l s.0, delete_task-IsSorted i l s.1)
]

split_due-IsSorted : (d : ℕ) (l : List Task) → IsSorted l → IsSorted (split_due d l).1
unfolding split_due
split_due-IsSorted d [] s = tt
split_due-IsSorted d (t ∷ l) s = elim (Bool-cases (ltb d t.deadline)) [
  | inl late ↦ rw late s
  | inr due ↦ rw due (split_due-IsSorted d l s.1)
]

AllFrom-split_due : (d e : ℕ) (l : List Task) → AllFrom d l → AllFrom d (split_due e l).0
unfolding split_due
AllFrom-split_due d e [] a = tt
AllFrom-split_due d e (t ∷ l) a = elim (Bool-cases (ltb e t.deadline)) [
  | inl late ↦ rw late tt
  | inr due ↦ rw due (a.0, AllFrom-split_due d e l a.1)
]

split_due-first-IsSorted : (d : ℕ) (l : List Task) → IsSorted l → IsSorted (split_due d l).0
unfolding split_due
split_due-first-IsSorted d [] s = tt
split_due-first-IsSorted d (t ∷ l) s = elim (Bool-cases (ltb d t.deadline)) [
  | inl late ↦ rw late tt
  | inr due ↦ rw due (AllFrom-split_due t.deadline d l s.0, split_due-first-IsSorted d l s.1)
]

-- The due tasks are those at the front of the queue whose deadline has come, in the queue's order;
-- the tasks that stay are later, and in order.
pub split_due_lem :
    (d : ℕ) (l : List Task)
    → IsSorted l
    → ((split_due d l).0 ++ (split_due d l).1 ≡ l)
      × AllDue d (split_due d l).0
      × AllLater d (split_due d l).1
      × IsSorted (split_due d l).0
      × IsSorted (split_due d l).1
split_due_lem d l s = (
  split_due-append d l,
  split_due-AllDue d l,
  split_due-AllLater d l s,
  split_due-first-IsSorted d l s,
  split_due-IsSorted d l s,
)
