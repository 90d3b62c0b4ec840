-- ===== src/AsyncLoop/Due.antt =====
-- Which tasks `async_loop_dispatch_tasks` of pkg/async_loop/loop.c takes from the queue and which it
-- leaves there, by their deadlines alone.
use fuchsia_sdk.Base.{
  ℕ, ◌≡◌, refl, List, [], ◌∷◌, arith, ltb, leb, if◌then◌else◌, Bool-cases, inl, inr,
}
use fuchsia_sdk.AsyncLoop.Types.{Task, Loop, Kernel}
use fuchsia_sdk.AsyncLoop.Dispatch.{split_due, extract_due}
use fuchsia_sdk.AsyncLoop.Queue.{IsSorted, AllLater, AllFrom-later}

-- The tasks whose deadline is at most the time, and those whose deadline is later.
abbrev pub come : ℕ → List Task → List Task
come now [] = []
come now (t ∷ l) = if leb t.deadline now then t ∷ come now l else come now l

abbrev pub to_come : ℕ → List Task → List Task
to_come now [] = []
to_come now (t ∷ l) = if leb t.deadline now then to_come now l else t ∷ to_come now l

-- The tasks that a round owes a call, of those left due from a round before and of those queued:
-- the former or, if there are none, the latter whose deadline has come.
abbrev pub owed : ℕ → List Task → List Task → List Task
owed now [] queue = come now queue
owed now (t ∷ l) queue = t ∷ l

-- The tasks that a round leaves on the queue.
abbrev pub kept : ℕ → List Task → List Task → List Task
kept now [] queue = to_come now queue
kept now (t ∷ l) queue = queue

come-none : (now : ℕ) (l : List Task) → AllLater now l → come now l ≡ []
come-none now [] a = refl
come-none now (t ∷ l) a = ground (arith, come-none now l a.1)

to_come-all : (now : ℕ) (l : List Task) → AllLater now l → to_come now l ≡ l
to_come-all now [] a = refl
to_come-all now (t ∷ l) a = ground (arith, to_come-all now l a.1)

-- On a queue in order, the front up to the first later task is every task whose deadline has come.
split_due-come : (now : ℕ) (l : List Task) → IsSorted l → (split_due now l).0 ≡ come now l
unfolding split_due
split_due-come now [] s = refl
split_due-come now (t ∷ l) s = elim (Bool-cases (ltb now t.deadline)) [
  | inl late ↦
      ground (arith, late, come-none now l (AllFrom-later now t.deadline l (ground arith) s.0))
  | inr due ↦ ground (arith, due, split_due-come now l s.1)
]

split_due-to_come : (now : ℕ) (l : List Task) → IsSorted l → (split_due now l).1 ≡ to_come now l
unfolding split_due
split_due-to_come now [] s = refl
split_due-to_come now (t ∷ l) s = elim (Bool-cases (ltb now t.deadline)) [
  | inl late ↦
      ground (arith, late, to_come-all now l (AllFrom-later now t.deadline l (ground arith) s.0))
  | inr due ↦ ground (arith, due, split_due-to_come now l s.1)
]

pub extract_due-owed :
    (k : Kernel) (s : Loop)
    → IsSorted s.task_list
    → (extract_due k s).due_list ≡ owed (k.now s.syscalls) s.due_list s.task_list
unfolding extract_due
extract_due-owed k s o = by_due s.due_list refl
  where
    by_due :
        (l : List Task)
        → s.due_list ≡ l
        → (extract_due k s).due_list ≡ owed (k.now s.syscalls) l s.task_list
    by_due [] q = rw (extract_due, q) (split_due-come (k.now s.syscalls) s.task_list o)
    by_due (t ∷ l) q = rw (extract_due, q) q

pub extract_due-kept :
    (k : Kernel) (s : Loop)
    → IsSorted s.task_list
    → (extract_due k s).task_list ≡ kept (k.now s.syscalls) s.due_list s.task_list
unfolding extract_due
extract_due-kept k s o = by_due s.due_list refl
  where
    by_due :
        (l : List Task)
        → s.due_list ≡ l
        → (extract_due k s).task_list ≡ kept (k.now s.syscalls) l s.task_list
    by_due [] q = rw (extract_due, q) (split_due-to_come (k.now s.syscalls) s.task_list o)
    by_due (t ∷ l) q = rw (extract_due, q) refl
