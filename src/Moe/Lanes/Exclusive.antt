-- ===== src/Moe/Lanes/Exclusive.antt =====
-- When the transfers of a lane exclude one another.
use he_mai_a.Prelude.{◌≤◌, ◌<◌, ◌⊎◌, ◌↔◌, List, [], ◌∷◌, arith, inl, inr, All, All-imp, Bool-cases}
use he_mai_a.Moe.Slot.{Transfer}
use he_mai_a.Moe.Lanes.{transfer_before, insert_transfer, sort_transfers}

-- One of the two ends before the other begins.
abbrev pub Apart : Transfer → Transfer → Type 0
Apart t u = (t.finish ≤ u.begin) ⊎ (u.finish ≤ t.begin)

-- No two transfers of the list run at one time.
abbrev pub IsExclusive : List Transfer → Type 0
IsExclusive [] = Unit
IsExclusive (t ∷ ts) = All (Apart t) ts × IsExclusive ts

abbrev pub IsTransfer : Transfer → Type 0
IsTransfer t = t.begin < t.finish

abbrev pub IsSorted : List Transfer → Type 0
IsSorted [] = Unit
IsSorted (t ∷ ts) = All (λ u. t.begin ≤ u.begin) ts × IsSorted ts

Apart-sym : (t u : Transfer) → Apart t u → Apart u t
Apart-sym t u (inl h) = inr h
Apart-sym t u (inr h) = inl h

module _ (P : Transfer → Type 0) where
  insert_transfer-All :
      (t : Transfer) (us : List Transfer) → P t → All P us → All P (insert_transfer t us)
  unfolding insert_transfer
  insert_transfer-All t [] p h = (p, tt)
  insert_transfer-All t (u ∷ us) p h = elim (Bool-cases (transfer_before u t)) [
    | inl e ↦ rw e (h.0, insert_transfer-All t us p h.1)
    | inr e ↦ rw e (p, h)
  ]

  All-insert_transfer :
      (t : Transfer) (us : List Transfer) → All P (insert_transfer t us) → P t × All P us
  unfolding insert_transfer
  All-insert_transfer t [] h = h
  All-insert_transfer t (u ∷ us) h = elim (Bool-cases (transfer_before u t)) [
    | inl e ↦
        let later : P u × All P (insert_transfer t us) = rw e at h in
        let (first, rest) = All-insert_transfer t us later.1 in (first, (later.0, rest))
    | inr e ↦ let whole : All P (t ∷ u ∷ us) = rw e at h in whole
  ]

  pub sort_transfers-All : (ts : List Transfer) → All P ts → All P (sort_transfers ts)
  unfolding sort_transfers
  sort_transfers-All [] h = tt
  sort_transfers-All (t ∷ ts) h =
      insert_transfer-All t (sort_transfers ts) h.0 (sort_transfers-All ts h.1)

  All-sort_transfers : (ts : List Transfer) → All P (sort_transfers ts) → All P ts
  unfolding sort_transfers
  All-sort_transfers [] h = tt
  All-sort_transfers (t ∷ ts) h =
      let (first, rest) = All-insert_transfer t (sort_transfers ts) h in
      (first, All-sort_transfers ts rest)

insert_transfer-IsExclusive :
    (t : Transfer) (us : List Transfer)
    → All (Apart t) us
    → IsExclusive us
    → IsExclusive (insert_transfer t us)
unfolding insert_transfer
insert_transfer-IsExclusive t [] h k = (tt, tt)
insert_transfer-IsExclusive t (u ∷ us) h k = elim (Bool-cases (transfer_before u t)) [
  | inl e ↦ rw e (
    insert_transfer-All (Apart u) t us (Apart-sym t u h.0) k.0,
    insert_transfer-IsExclusive t us h.1 k.1,
  )
  | inr e ↦ rw e (h, k)
]

IsExclusive-insert_transfer :
    (t : Transfer) (us : List Transfer)
    → IsExclusive (insert_transfer t us)
    → All (Apart t) us × IsExclusive us
unfolding insert_transfer
IsExclusive-insert_transfer t [] h = (tt, tt)
IsExclusive-insert_transfer t (u ∷ us) h = elim (Bool-cases (transfer_before u t)) [
  | inl e ↦
      let later : All (Apart u) (insert_transfer t us) × IsExclusive (insert_transfer t us) =
        rw e at h in
      let (near, far) = All-insert_transfer (Apart u) t us later.0 in
      let (first, rest) = IsExclusive-insert_transfer t us later.1 in
      ((Apart-sym u t near, first), (far, rest))
  | inr e ↦ let whole : IsExclusive (t ∷ u ∷ us) = rw e at h in whole
]

-- The order of a list is of no account.
pub sort_transfers-IsExclusive :
    (ts : List Transfer) → IsExclusive (sort_transfers ts) ↔ IsExclusive ts
unfolding sort_transfers
sort_transfers-IsExclusive [] = (λ h. tt, λ h. tt)
sort_transfers-IsExclusive (t ∷ ts) = (
  λ h.
      let (first, rest) = IsExclusive-insert_transfer t (sort_transfers ts) h in
      (All-sort_transfers (Apart t) ts first, (sort_transfers-IsExclusive ts).0 rest),
  λ h.
      insert_transfer-IsExclusive t (sort_transfers ts) (sort_transfers-All (Apart t) ts h.0)
        ((sort_transfers-IsExclusive ts).1 h.1),
)

insert_transfer-IsSorted :
    (t : Transfer) (us : List Transfer) → IsSorted us → IsSorted (insert_transfer t us)
unfolding insert_transfer
insert_transfer-IsSorted t [] h = (tt, tt)
insert_transfer-IsSorted t (u ∷ us) h = elim (Bool-cases (transfer_before u t)) [
  | inl e ↦
      let below : u.begin ≤ t.begin = ground arith in
      rw e (
        insert_transfer-All (λ v. u.begin ≤ v.begin) t us below h.0,
        insert_transfer-IsSorted t us h.1,
      )
  | inr e ↦
      let above : t.begin ≤ u.begin = ground arith in
      rw e (
        (
          above,
          All-imp (λ v. u.begin ≤ v.begin) (λ v. t.begin ≤ v.begin) us
              (λ v le. omega (arith, above, le)) h.0,
        ),
        h,
      )
]

pub sort_transfers-IsSorted : (ts : List Transfer) → IsSorted (sort_transfers ts)
unfolding sort_transfers
sort_transfers-IsSorted [] = tt
sort_transfers-IsSorted (t ∷ ts) =
    insert_transfer-IsSorted t (sort_transfers ts) (sort_transfers-IsSorted ts)
