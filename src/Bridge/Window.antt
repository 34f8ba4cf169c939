-- ===== src/Bridge/Window.antt =====
-- Sums over the rolling window: the loops of the credit bridge against plain sums over a list and
-- over a range of indices, and what saving and removing an entry does to these.
use sysbreak_trust.Base.{
  ℕ, zero, suc, ◌+◌, ◌-◌, ◌≤◌, ◌<◌, ◌≡◌, refl, arith, min, leb, ltb, if◌then◌else◌, Option, none,
  some, List, [], ◌∷◌, ◌++◌, Map, find, save, remove, find-save, find-save_self, find-remove,
  number_key, u128_max, saturating_add, Bool-cases, inl, inr, Option-cases,
}
use native.Mathlib.Nat.{add-zero}
use sysbreak_trust.Bridge.State.{WithdrawalRecord}
use sysbreak_trust.Bridge.Helpers.{window_loop, add_in_window, global_loop}
use sysbreak_trust.Bridge.Withdraw.{prune}

-- What a record adds to the sum from `cutoff` on.
abbrev pub share : ℕ → WithdrawalRecord → ℕ
share cutoff r = if leb cutoff r.timestamp then r.amount_credits else 0

abbrev pub list_sum : ℕ → List WithdrawalRecord → ℕ
list_sum cutoff [] = 0
list_sum cutoff (r ∷ rs) = share cutoff r + list_sum cutoff rs

abbrev pub share_at : ℕ → Option WithdrawalRecord → ℕ
share_at cutoff none = 0
share_at cutoff (some r) = share cutoff r

-- The sum over `rounds` indices from `idx`.
unfoldable pub range_sum : ℕ → Map ℕ WithdrawalRecord → ℕ → ℕ → ℕ
range_sum cutoff m zero idx = 0
range_sum cutoff m (suc rounds) idx =
    share_at cutoff (find idx m) + range_sum cutoff m rounds (idx + 1)

saturating_add-eq : (a b : ℕ) → saturating_add a b ≡ min u128_max (a + b)
saturating_add-eq a b = ground arith

-- The total of `sum_rolling_window` is the sum, cut off at the largest `Uint128`.
pub window_loop-total :
    (cutoff : ℕ) (rs active : List WithdrawalRecord) (total : ℕ)
    → total ≤ u128_max
    → (window_loop cutoff rs active total).1 ≡ min u128_max (total + list_sum cutoff rs)
unfolding window_loop
window_loop-total cutoff [] active total h = omega arith
window_loop-total cutoff (r ∷ rs) active total h =
    let total' = if leb cutoff r.timestamp then saturating_add total r.amount_credits else total in
    let active' = if leb cutoff r.timestamp then active ++ (r ∷ []) else active in
    let step : total' ≡ min u128_max (total + share cutoff r) = ground arith in
    omega (arith, step, window_loop-total cutoff rs active' total' (omega (arith, step)))

pub list_sum-append :
    (cutoff : ℕ) (xs ys : List WithdrawalRecord)
    → list_sum cutoff (xs ++ ys) ≡ list_sum cutoff xs + list_sum cutoff ys
list_sum-append cutoff [] ys = omega arith
list_sum-append cutoff (x ∷ xs) ys = omega (arith, list_sum-append cutoff xs ys)

-- The records that are kept have the same sum from any later time on.
pub window_loop-active :
    (cutoff later : ℕ) (rs active : List WithdrawalRecord) (total : ℕ)
    → cutoff ≤ later
    → list_sum later (window_loop cutoff rs active total).0
      ≡ list_sum later active + list_sum later rs
unfolding window_loop
window_loop-active cutoff later [] active total h = omega arith
window_loop-active cutoff later (r ∷ rs) active total h =
    let total' = if leb cutoff r.timestamp then saturating_add total r.amount_credits else total in
    let active' = if leb cutoff r.timestamp then active ++ (r ∷ []) else active in
    let step : list_sum later active' ≡ list_sum later active + share later r =
      ground (arith, list_sum-append later active (r ∷ [])) in
    omega (arith, step, window_loop-active cutoff later rs active' total' h)

add_in_window-eq :
    (cutoff : ℕ) (o : Option WithdrawalRecord) (used : ℕ)
    → used ≤ u128_max
    → add_in_window cutoff o used ≡ min u128_max (used + share_at cutoff o)
unfolding add_in_window
add_in_window-eq cutoff none used h = omega arith
add_in_window-eq cutoff (some r) used h = elim (Bool-cases (leb cutoff r.timestamp)) [
  | inl new ↦ rw new (saturating_add-eq used r.amount_credits)
  | inr old ↦ rw old (omega arith)
]

pub global_loop-eq :
    (cutoff : ℕ) (m : Map ℕ WithdrawalRecord) (rounds idx used : ℕ)
    → used ≤ u128_max
    → global_loop cutoff m rounds idx used ≡ min u128_max (used + range_sum cutoff m rounds idx)
unfolding global_loop range_sum
global_loop-eq cutoff m zero idx used h = omega arith
global_loop-eq cutoff m (suc rounds) idx used h =
    let used' = add_in_window cutoff (find idx m) used in
    omega (
      arith,
      add_in_window-eq cutoff (find idx m) used h,
      global_loop-eq cutoff m rounds (idx + 1) used',
    )

module _ (cutoff : ℕ) (k : ℕ) where
  -- An entry behind the range adds nothing.
  pub range_sum-save :
      (v : WithdrawalRecord) (m : Map ℕ WithdrawalRecord) (rounds idx : ℕ)
      → idx + rounds ≤ k
      → range_sum cutoff (save k v m) rounds idx ≡ range_sum cutoff m rounds idx
  unfolding range_sum
  range_sum-save v m zero idx h = refl
  range_sum-save v m (suc rounds) idx h =
      ground (arith, find-save k idx v m, range_sum-save v m rounds (idx + 1))

  -- An entry before the range is not in it.
  pub range_sum-remove :
      (m : Map ℕ WithdrawalRecord) (rounds idx : ℕ)
      → k < idx
      → range_sum cutoff (remove k m) rounds idx ≡ range_sum cutoff m rounds idx
  unfolding range_sum
  range_sum-remove m zero idx h = refl
  range_sum-remove m (suc rounds) idx h =
      ground (arith, find-remove k idx m, range_sum-remove m rounds (idx + 1))

pub range_sum-last :
    (cutoff : ℕ) (m : Map ℕ WithdrawalRecord) (rounds idx : ℕ)
    → range_sum cutoff m (suc rounds) idx
      ≡ range_sum cutoff m rounds idx + share_at cutoff (find (idx + rounds) m)
unfolding range_sum
range_sum-last cutoff m zero idx = rw (add-zero idx) (omega arith)
range_sum-last cutoff m (suc rounds) idx =
    let shift : idx + suc rounds ≡ idx + 1 + rounds = omega arith in
    rw shift (omega (arith, range_sum-last cutoff m rounds (idx + 1)))

-- The first index of a range that is not empty.
range_sum-first :
    (cutoff : ℕ) (m : Map ℕ WithdrawalRecord) (counter oldest : ℕ)
    → oldest ≤ counter
    → range_sum cutoff m (counter + 1 - oldest) oldest
      ≡ share_at cutoff (find oldest m)
        + range_sum cutoff m (counter + 1 - (oldest + 1)) (oldest + 1)
unfolding range_sum
range_sum-first cutoff m counter oldest le =
    let split : counter + 1 - oldest ≡ suc (counter + 1 - (oldest + 1)) = omega arith in rw split

-- Pruning moves the first index up to the last at most, and drops nothing from a later sum.
pub prune-keeps :
    (cutoff counter : ℕ) (rounds : ℕ) (m : Map ℕ WithdrawalRecord) (oldest : ℕ) (later : ℕ)
    → cutoff ≤ later
    → oldest ≤ counter
    → let (m', oldest') = prune cutoff counter rounds m oldest in
      (oldest' ≤ counter)
      × (range_sum later m' (counter + 1 - oldest') oldest'
          ≡ range_sum later m (counter + 1 - oldest) oldest)
unfolding prune
prune-keeps cutoff counter zero m oldest later h le = (le, refl)
prune-keeps cutoff counter (suc rounds) m oldest later h le =
    elim (Bool-cases (ltb oldest counter)) [
      | inl more ↦
          let next : oldest + 1 ≤ counter = ground arith in
          let first = range_sum-first later m counter oldest le in
          elim (Option-cases (find oldest m)) [
            | inl absent ↦
                let (low, same) = prune-keeps cutoff counter rounds m (oldest + 1) later h next in
                rw (more, absent) (low, omega (arith, same, rw absent at first))
            | inr (r, present) ↦ elim (Bool-cases (ltb r.timestamp cutoff)) [
              | inl expired ↦
                  let m' = remove oldest m in
                  let (low, same) =
                    prune-keeps cutoff counter rounds m' (oldest + 1) later h next in
                  let out : share later r ≡ 0 = ground arith in
                  let kept =
                    range_sum-remove later oldest m (counter + 1 - (oldest + 1)) (oldest + 1)
                      (omega arith) in
                  rw (more, present, expired)
                    (low, omega (arith, same, kept, out, rw present at first))
              | inr kept ↦ rw (more, present, kept) (le, refl)
            ]
          ]
      | inr done ↦ rw done (le, refl)
    ]

-- A new entry behind the range lengthens the sum by its share.
pub range_sum-push :
    (cutoff : ℕ) (v : WithdrawalRecord) (m : Map ℕ WithdrawalRecord) (counter oldest : ℕ)
    → oldest ≤ counter
    → range_sum cutoff (save (counter + 1) v m) (counter + 1 + 1 - oldest) oldest
      ≡ range_sum cutoff m (counter + 1 - oldest) oldest + share cutoff v
range_sum-push cutoff v m counter oldest le =
    let rounds = counter + 1 - oldest in
    let split : counter + 1 + 1 - oldest ≡ suc rounds = omega arith in
    let at_end : oldest + rounds ≡ counter + 1 = omega arith in
    let m' = save (counter + 1) v m in
    let old = range_sum-save cutoff (counter + 1) v m rounds oldest (omega arith) in
    let new : share_at cutoff (find (oldest + rounds) m') ≡ share cutoff v =
      rw at_end (rw (find-save_self (counter + 1) v m)) in
    rw split (omega (arith, range_sum-last cutoff m' rounds oldest, old, new))
