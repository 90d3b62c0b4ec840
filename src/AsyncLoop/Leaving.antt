-- ===== src/AsyncLoop/Leaving.antt =====
-- pkg/async_loop/loop.c: no thread stays in `zx_port_wait` when the loop quits or is shut down.
use mathlib.Core.Path.{subst}
use fuchsia_sdk.Base.{
  ℕ, suc, ◌+◌, ◌-◌, ◌%◌, ◌^◌, ◌≤◌, ◌<◌, ◌≡◌, ◌≢◌, refl, sym, ap, ◌∙◌, ◌⊎◌, inl, inr, List, [], ◌∷◌,
  ◌++◌, arith, length, length-append,
}
use fuchsia_sdk.AsyncLoop.Types.{LoopState, runnable, quit, shutdown}
use fuchsia_sdk.AsyncLoop.Threads.{
  Phase, checking, waits, handling, leaving, Waker, flagged, waking, Pool, after_check, IsNextRound,
  PoolStep, enters, checks, woken_up, served, failed, handled, leaves, quits, shuts_down, counts,
  queues, returns, finds_idle, resets, resets_not, PoolReach, here, next,
}

-- The sum of a weight over a list.
abbrev pub sum {ℓ} : {A : Type ℓ} → (A → ℕ) → List A → ℕ
sum w [] = 0
sum w (x ∷ l) = w x + sum w l

sum-append : {A : Type 0} (w : A → ℕ) (l m : List A) → sum w (l ++ m) ≡ sum w l + sum w m
sum-append w [] m = omega arith
sum-append w (x ∷ l) m = omega (arith, sum-append w l m)

-- A thread that has seen the loop runnable and may block.
abbrev pub waits_one : Phase → ℕ
waits_one checking = 0
waits_one waits = 1
waits_one handling = 0
waits_one leaving = 0

abbrev pub blocked : Pool → ℕ
blocked x = sum waits_one x.threads

abbrev flagged_one : Waker → ℕ
flagged_one flagged = 1
flagged_one (waking n) = 0

abbrev left_of : Waker → ℕ
left_of flagged = 0
left_of (waking n) = n

-- The loop runs, or there are packets for the threads that may block, or will be.
record IsCovered (x : Pool) : Type 0 where
  counted : x.active_threads ≡ length x.threads
  covered :
      (x.state ≡ runnable)
      ⊎ (0 < sum flagged_one x.wakers)
      ⊎ (blocked x ≤ x.controls + sum left_of x.wakers)

blocked-le-length : (l : List Phase) → sum waits_one l ≤ length l
blocked-le-length [] = omega arith
blocked-le-length (checking ∷ l) = omega (arith, blocked-le-length l)
blocked-le-length (waits ∷ l) = omega (arith, blocked-le-length l)
blocked-le-length (handling ∷ l) = omega (arith, blocked-le-length l)
blocked-le-length (leaving ∷ l) = omega (arith, blocked-le-length l)

-- Replacing an element.
sum-replace :
    {A : Type 0} (w : A → ℕ) (l r : List A) (p q : A)
    → sum w (l ++ q ∷ r) + w p ≡ sum w (l ++ p ∷ r) + w q
sum-replace w l r p q = omega (arith, sum-append w l (p ∷ r), sum-append w l (q ∷ r))

sum-remove :
    {A : Type 0} (w : A → ℕ) (l r : List A) (p : A) → w p ≡ 0 → sum w (l ++ r) ≡ sum w (l ++ p ∷ r)
sum-remove w l r p h = omega (arith, h, sum-append w l r, sum-append w l (p ∷ r))

length-replace : {A : Type 0} (l r : List A) (p q : A) → length (l ++ q ∷ r) ≡ length (l ++ p ∷ r)
length-replace l r p q = omega (arith, length-append l (p ∷ r), length-append l (q ∷ r))

-- A thread goes from one phase to another and takes so many wake-up packets along.
moved-IsCovered :
    (a : Pool) (l r : List Phase) (p q : Phase) (n : ℕ)
    → IsCovered a
    → a.threads ≡ l ++ p ∷ r
    → ((a.state ≡ runnable) ⊎ (waits_one q + a.controls ≤ waits_one p + n))
    → IsCovered (record a { threads = l ++ q ∷ r; controls = n })
moved-IsCovered a l r p q n i at h = record {
  counted = i.counted ∙ ap length at ∙ sym (length-replace l r p q);
  covered = elim h [ inl runs ↦ inl runs | inr fewer ↦ by_cover fewer i.covered ];
}
  where
    before : blocked a ≡ sum waits_one (l ++ p ∷ r)
    before = ap (sum waits_one) at

    by_cover :
        waits_one q + a.controls ≤ waits_one p + n
        → (a.state ≡ runnable)
          ⊎ (0 < sum flagged_one a.wakers)
          ⊎ (blocked a ≤ a.controls + sum left_of a.wakers)
        → (a.state ≡ runnable)
          ⊎ (0 < sum flagged_one a.wakers)
          ⊎ (sum waits_one (l ++ q ∷ r) ≤ n + sum left_of a.wakers)
    by_cover fewer (inl runs) = inl runs
    by_cover fewer (inr (inl flag)) = inr (inl flag)
    by_cover fewer (inr (inr few)) =
        inr (inr (omega (arith, fewer, few, before, sum-replace waits_one l r p q)))

next_round : (p : Phase) → IsNextRound p → waits_one p ≡ 0
next_round p (inl q) = ap waits_one q
next_round p (inr q) = ap waits_one q

checked : (s : LoopState) (n : ℕ) → (s ≡ runnable) ⊎ (waits_one (after_check s) + n ≤ 0 + n)
checked runnable n = inl refl
checked quit n = inr (omega arith)
checked shutdown n = inr (omega arith)

-- What the wakers do keeps the threads and the state.
woken-IsCovered :
    (a : Pool) (l : List Waker) (n : ℕ)
    → IsCovered a
    → (0 < sum flagged_one a.wakers → (0 < sum flagged_one l) ⊎ (blocked a ≤ n + sum left_of l))
    → a.controls + sum left_of a.wakers ≤ n + sum left_of l
    → IsCovered (record a { wakers = l; controls = n })
woken-IsCovered a l n i flag fewer = record { counted = i.counted; covered = by_cover i.covered }
  where
    by_cover :
        (a.state ≡ runnable)
          ⊎ (0 < sum flagged_one a.wakers)
          ⊎ (blocked a ≤ a.controls + sum left_of a.wakers)
        → (a.state ≡ runnable) ⊎ (0 < sum flagged_one l) ⊎ (blocked a ≤ n + sum left_of l)
    by_cover (inl runs) = inl runs
    by_cover (inr (inl f)) = inr (flag f)
    by_cover (inr (inr few)) = inr (inr (omega (arith, few, fewer)))

counts-IsCovered :
    (a : Pool) (l r : List Waker)
    → IsCovered a
    → a.wakers ≡ l ++ flagged ∷ r
    → IsCovered (record a { wakers = l ++ waking a.active_threads ∷ r })
counts-IsCovered a l r i at =
    let all : sum left_of (l ++ waking a.active_threads ∷ r)
        ≡ sum left_of l + (a.active_threads + sum left_of r) =
      sum-append left_of l (waking a.active_threads ∷ r) in
    let before : sum left_of a.wakers ≡ sum left_of l + (0 + sum left_of r) =
      ap (sum left_of) at ∙ sum-append left_of l (flagged ∷ r) in
    woken-IsCovered a (l ++ waking a.active_threads ∷ r) a.controls i
      (λ _. inr (omega (arith, all, i.counted, blocked-le-length a.threads)))
      (omega (arith, all, before))

queues-IsCovered :
    (a : Pool) (l r : List Waker) (n : ℕ)
    → IsCovered a
    → a.wakers ≡ l ++ waking (suc n) ∷ r
    → IsCovered (record a { wakers = l ++ waking n ∷ r; controls = suc a.controls })
queues-IsCovered a l r n i at =
    let flags : sum flagged_one (l ++ waking n ∷ r) ≡ sum flagged_one a.wakers =
      sum-append flagged_one l (waking n ∷ r)
      ∙ sym (ap (sum flagged_one) at ∙ sum-append flagged_one l (waking (suc n) ∷ r)) in
    let before : sum left_of a.wakers ≡ sum left_of l + (suc n + sum left_of r) =
      ap (sum left_of) at ∙ sum-append left_of l (waking (suc n) ∷ r) in
    woken-IsCovered a (l ++ waking n ∷ r) (suc a.controls) i (λ f. inl (omega (arith, f, flags)))
      (omega (arith, before, sum-append left_of l (waking n ∷ r)))

returns-IsCovered :
    (a : Pool) (l r : List Waker)
    → IsCovered a
    → a.wakers ≡ l ++ waking 0 ∷ r
    → IsCovered (record a { wakers = l ++ r })
returns-IsCovered a l r i at =
    let flags : sum flagged_one (l ++ r) ≡ sum flagged_one a.wakers =
      sum-remove flagged_one l r (waking 0) refl ∙ sym (ap (sum flagged_one) at) in
    let lefts : sum left_of (l ++ r) ≡ sum left_of a.wakers =
      sum-remove left_of l r (waking 0) refl ∙ sym (ap (sum left_of) at) in
    woken-IsCovered a (l ++ r) a.controls i (λ f. inl (omega (arith, f, flags)))
      (omega (arith, lefts))

still_covered :
    (a : Pool) (n : ℕ)
    → n ≡ blocked a
    → (a.state ≡ runnable)
      ⊎ (0 < sum flagged_one a.wakers)
      ⊎ (blocked a ≤ a.controls + sum left_of a.wakers)
    → (a.state ≡ runnable)
      ⊎ (0 < sum flagged_one a.wakers)
      ⊎ (n ≤ a.controls + sum left_of a.wakers)
still_covered a n h (inl runs) = inl runs
still_covered a n h (inr (inl f)) = inr (inl f)
still_covered a n h (inr (inr few)) = inr (inr (omega (arith, few, h)))

-- Counting a thread in, or out.
enters-IsCovered :
    (a : Pool)
    → IsCovered a
    → length a.threads + 1 < 2 ^ 32
    → IsCovered (record a {
      active_threads = (a.active_threads + 1) % 2 ^ 32;
      threads = checking ∷ a.threads;
    })
enters-IsCovered a i few = record {
  counted = omega (arith, i.counted, few);
  covered = still_covered a (sum waits_one (checking ∷ a.threads)) (omega arith) i.covered;
}

leaves-IsCovered :
    (a : Pool) (l r : List Phase)
    → IsCovered a
    → a.threads ≡ l ++ leaving ∷ r
    → IsCovered (record a { threads = l ++ r; active_threads = a.active_threads - 1 })
leaves-IsCovered a l r i at =
    let before : length a.threads ≡ length l + suc (length r) =
      ap length at ∙ length-append l (leaving ∷ r) in
    let same : sum waits_one (l ++ r) ≡ blocked a =
      sum-remove waits_one l r leaving refl ∙ sym (ap (sum waits_one) at) in
    record {
      counted = omega (arith, i.counted, before, length-append l r);
      covered = still_covered a (sum waits_one (l ++ r)) same i.covered;
    }

equal-IsCovered : {a b : Pool} → b ≡ a → IsCovered a → IsCovered b
equal-IsCovered q i = subst IsCovered (sym q) i

PoolStep-IsCovered : (a b : Pool) → IsCovered a → PoolStep a b → IsCovered b
PoolStep-IsCovered a b i (enters few q) = equal-IsCovered q (enters-IsCovered a i few)
PoolStep-IsCovered a b i (checks l r at q) = equal-IsCovered q (
    moved-IsCovered a l r checking (after_check a.state) a.controls i at
      (checked a.state a.controls))
PoolStep-IsCovered a b i (woken_up l r p n at c round q) =
    equal-IsCovered q
      (moved-IsCovered a l r waits p n i at (inr (omega (arith, c, next_round p round))))
PoolStep-IsCovered a b i (served l r at q) =
    equal-IsCovered q (moved-IsCovered a l r waits handling a.controls i at (inr (omega arith)))
PoolStep-IsCovered a b i (failed l r at q) =
    equal-IsCovered q (moved-IsCovered a l r waits leaving a.controls i at (inr (omega arith)))
PoolStep-IsCovered a b i (handled l r p at round q) =
    equal-IsCovered q
      (moved-IsCovered a l r handling p a.controls i at (inr (omega (arith, next_round p round))))
PoolStep-IsCovered a b i (leaves l r at q) = equal-IsCovered q (leaves-IsCovered a l r i at)
PoolStep-IsCovered a b i (quits s q) =
    equal-IsCovered q (record { counted = i.counted; covered = inr (inl (omega arith)) })
PoolStep-IsCovered a b i (shuts_down s q) =
    equal-IsCovered q (record { counted = i.counted; covered = inr (inl (omega arith)) })
PoolStep-IsCovered a b i (counts l r at q) = equal-IsCovered q (counts-IsCovered a l r i at)
PoolStep-IsCovered a b i (queues l r n at q) = equal-IsCovered q (queues-IsCovered a l r n i at)
PoolStep-IsCovered a b i (returns l r at q) = equal-IsCovered q (returns-IsCovered a l r i at)
PoolStep-IsCovered a b i (finds_idle z q) =
    equal-IsCovered q (record { counted = i.counted; covered = i.covered })
PoolStep-IsCovered a b i (resets n c s q) =
    equal-IsCovered q (record { counted = i.counted; covered = inl refl })
PoolStep-IsCovered a b i (resets_not n c s q) =
    equal-IsCovered q (record { counted = i.counted; covered = i.covered })

PoolReach-IsCovered : (x : Pool) → PoolReach x → IsCovered x
PoolReach-IsCovered x here = record { counted = refl; covered = inl refl }
PoolReach-IsCovered x (next {a} {b} r s) = PoolStep-IsCovered a b (PoolReach-IsCovered a r) s

-- Over every interleaving of the threads in async_loop_run with those that quit, shut down and
-- reset the loop: once the loop is not runnable and nobody is in async_loop_wake_threads any more,
-- there is a wake-up packet on the port for each thread that may block in zx_port_wait. At most
-- 2^32 - 1 threads are in async_loop_run.
pub PoolReach-woken :
    (x : Pool) → PoolReach x → x.state ≢ runnable → x.wakers ≡ [] → blocked x ≤ x.controls
PoolReach-woken x r stops nobody = by_cover (PoolReach-IsCovered x r).covered
  where
    by_cover :
        (x.state ≡ runnable)
          ⊎ (0 < sum flagged_one x.wakers)
          ⊎ (blocked x ≤ x.controls + sum left_of x.wakers)
        → blocked x ≤ x.controls
    by_cover (inl runs) = absurd (stops runs)
    by_cover (inr (inl f)) =
        let none_flagged : sum flagged_one x.wakers ≡ 0 = ap (sum flagged_one) nobody in
        absurd (omega (arith, f, none_flagged))
    by_cover (inr (inr few)) =
        let none_left : sum left_of x.wakers ≡ 0 = ap (sum left_of) nobody in
        omega (arith, few, none_left)
