-- ===== src/Fit/Tickets.antt =====
-- The ticket table of pkg/fit/include/lib/fit/scheduler.h, a std::map from tickets to records, in
-- the order of its keys.
use fuchsia_sdk.Base.{
  ℕ, ◌+◌, ◌≤◌, ◌<◌, ◌≡◌, ◌≢◌, refl, Bool, true, false, Option, none, some, List, [], ◌∷◌, arith,
  ltb, ◌==◌, ==_iff, if◌then◌else◌, All, Bool-cases, inl, inr,
}

-- `scheduler::ticket_record`. A task is known by a number.
pub record TicketRecord : Type 0 where
  pub ref_count : ℕ
  pub was_resumed : Bool
  pub task : Option ℕ

-- `scheduler::ticket_map`.
abbrev pub Tickets : Type 0
Tickets = List (ℕ × TicketRecord)

unfoldable pub find : ℕ → Tickets → Option TicketRecord
find k [] = none
find k ((i, r) ∷ l) = if i == k then some r else find k l

-- `emplace` puts a record in the order of the keys, and leaves one that is there.
unfoldable pub emplace : ℕ → TicketRecord → Tickets → Tickets
emplace k r [] = (k, r) ∷ []
emplace k r ((i, x) ∷ l) =
    if i == k then (i, x) ∷ l else if ltb k i then (k, r) ∷ (i, x) ∷ l else (i, x) ∷ emplace k r l

-- Writing through the iterator that `find` gave.
unfoldable pub update : ℕ → TicketRecord → Tickets → Tickets
update k r [] = []
update k r ((i, x) ∷ l) = if i == k then (i, r) ∷ l else (i, x) ∷ update k r l

unfoldable pub erase : ℕ → Tickets → Tickets
erase k [] = []
erase k ((i, x) ∷ l) = if i == k then l else (i, x) ∷ erase k l

-- A changed record is written back, or it is erased if nothing refers to it.
unfoldable pub settle : ℕ → TicketRecord → Tickets → Tickets
settle k r l = if r.ref_count == 0 then erase k l else update k r l

pub settle-erase :
    (k : ℕ) (r : TicketRecord) (l : Tickets) → (r.ref_count == 0) ≡ true → erase k l ≡ settle k r l
unfolding settle
settle-erase k r l h = rw h refl

pub settle-update :
    (k : ℕ) (r : TicketRecord) (l : Tickets)
    → (r.ref_count == 0) ≡ false
    → update k r l ≡ settle k r l
unfolding settle
settle-update k r l h = rw h refl

-- The sum of a weight over the table.
unfoldable pub total : (ℕ → TicketRecord → ℕ) → Tickets → ℕ
total w [] = 0
total w ((i, r) ∷ l) = w i r + total w l

module _ (w : ℕ → TicketRecord → ℕ) (k : ℕ) where
  pub total-emplace :
      (r : TicketRecord) (l : Tickets)
      → find k l ≡ none
      → total w (emplace k r l) ≡ w k r + total w l
  unfolding find emplace total
  total-emplace r [] h = refl
  total-emplace r ((i, x) ∷ l) h = elim (Bool-cases (i == k)) [
    | inl same ↦ absurd (ground (arith, h, same))
    | inr other ↦
        let rest : find k l ≡ none = ground (arith, h, other) in
        elim (Bool-cases (ltb k i)) [
          | inl before ↦ rw (other, before) refl
          | inr after ↦ rw (other, after, total-emplace r l rest) (omega arith)
        ]
  ]

  pub total-update :
      (r r' : TicketRecord) (l : Tickets)
      → find k l ≡ some r
      → total w (update k r' l) + w k r ≡ total w l + w k r'
  unfolding find update total
  total-update r r' [] h = cc
  total-update r r' ((i, x) ∷ l) h = elim (Bool-cases (i == k)) [
    | inl same ↦
        let e : i ≡ k = (==_iff i k).0 same in
        let f : x ≡ r = ground (arith, h, same) in rw (same, e, f) (omega arith)
    | inr other ↦
        let rest : find k l ≡ some r = ground (arith, h, other) in
        rw other (omega (arith, total-update r r' l rest))
  ]

  pub total-erase :
      (r : TicketRecord) (l : Tickets) → find k l ≡ some r → total w (erase k l) + w k r ≡ total w l
  unfolding find erase total
  total-erase r [] h = cc
  total-erase r ((i, x) ∷ l) h = elim (Bool-cases (i == k)) [
    | inl same ↦
        let e : i ≡ k = (==_iff i k).0 same in
        let f : x ≡ r = ground (arith, h, same) in rw (same, e, f) (omega arith)
    | inr other ↦
        let rest : find k l ≡ some r = ground (arith, h, other) in
        rw other (omega (arith, total-erase r l rest))
  ]

  -- What a record weighs once it is settled.
  abbrev pub settled : TicketRecord → ℕ
  settled r = if r.ref_count == 0 then 0 else w k r

  pub total-settle :
      (r r' : TicketRecord) (l : Tickets)
      → find k l ≡ some r
      → total w (settle k r' l) + w k r ≡ total w l + settled r'
  unfolding settle
  total-settle r r' l h = elim (Bool-cases (r'.ref_count == 0)) [
    | inl gone ↦ rw gone (omega (arith, total-erase r l h))
    | inr kept ↦ rw kept (total-update r r' l h)
  ]

  pub weight-le-total : (r : TicketRecord) (l : Tickets) → find k l ≡ some r → w k r ≤ total w l
  weight-le-total r l h = omega (arith, total-erase r l h)

  -- What weighs something is in the table.
  pub find-ne-none :
      (l : Tickets)
      → ((i : ℕ) (r : TicketRecord) → (i == k) ≡ false → w i r ≡ 0)
      → 0 < total w l
      → find k l ≢ none
  unfolding find total
  find-ne-none [] only h q = omega (arith, h)
  find-ne-none ((i, x) ∷ l) only h q = elim (Bool-cases (i == k)) [
    | inl same ↦ ground (arith, q, same)
    | inr other ↦ find-ne-none l only (omega (arith, h, only i x other)) (ground (arith, q, other))
  ]

module _ (P : ℕ × TicketRecord → Type 0) (k : ℕ) where
  pub All-find : (r : TicketRecord) (l : Tickets) → All P l → find k l ≡ some r → P (k, r)
  unfolding find
  All-find r [] a h = cc
  All-find r ((i, x) ∷ l) a h = elim (Bool-cases (i == k)) [
    | inl same ↦
        let e : i ≡ k = (==_iff i k).0 same in
        let f : x ≡ r = ground (arith, h, same) in rw (← e, ← f) a.0
    | inr other ↦ All-find r l a.1 (ground (arith, h, other))
  ]

  pub All-emplace : (r : TicketRecord) (l : Tickets) → All P l → P (k, r) → All P (emplace k r l)
  unfolding emplace
  All-emplace r [] a p = (p, tt)
  All-emplace r ((i, x) ∷ l) a p = elim (Bool-cases (i == k)) [
    | inl same ↦ rw same a
    | inr other ↦ elim (Bool-cases (ltb k i)) [
      | inl before ↦ rw (other, before) (p, a)
      | inr after ↦ rw (other, after) (a.0, All-emplace r l a.1 p)
    ]
  ]

  All-erase : (l : Tickets) → All P l → All P (erase k l)
  unfolding erase
  All-erase [] a = tt
  All-erase ((i, x) ∷ l) a = elim (Bool-cases (i == k)) [
    | inl same ↦ rw same a.1
    | inr other ↦ rw other (a.0, All-erase l a.1)
  ]

  pub All-update : (r : TicketRecord) (l : Tickets) → P (k, r) → All P l → All P (update k r l)
  unfolding update
  All-update r [] p a = tt
  All-update r ((i, x) ∷ l) p a = elim (Bool-cases (i == k)) [
    | inl same ↦ let e : i ≡ k = (==_iff i k).0 same in rw (same, e) (p, a.1)
    | inr other ↦ rw other (a.0, All-update r l p a.1)
  ]

  pub All-settle :
      (r : TicketRecord) (l : Tickets)
      → All P l
      → ((r.ref_count == 0) ≡ false → P (k, r))
      → All P (settle k r l)
  unfolding settle
  All-settle r l a p = elim (Bool-cases (r.ref_count == 0)) [
    | inl gone ↦ rw gone (All-erase l a)
    | inr kept ↦ rw kept (All-update r l (p kept) a)
  ]
