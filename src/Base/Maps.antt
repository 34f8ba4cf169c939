-- ===== src/Base/Maps.antt =====
-- The storage containers: `Item` is an optional value, and `Map` an association list in the order
-- of its keys, which is the order of `range`. A key type brings its equality and its order.
use Prim.Native.Nat.{ℕ, zero, suc}
use mathlib.Core.Path.{◌≡◌, refl}
use mathlib.Core.Logic.{◌↔◌}
use mathlib.Core.Bool.{Bool, true, ◌&&◌}
use mathlib.Core.Option.{Option, none, some}
use mathlib.Core.List.{List, [], ◌∷◌}
use native.Mathlib.Omega.{arith}
use sysbreak_trust.Base.Numbers.{ltb, eqb, eqb_iff, if◌then◌else◌}
use sysbreak_trust.Base.Results.{is_some}
use sysbreak_trust.Base.Texts.{Text, same_text, text_lt, same_text_iff}

pub record Key {ℓ} (K : Type ℓ) : Type ℓ where
  pub same : K → K → Bool
  pub before : K → K → Bool
  pub same_iff : (a b : K) → (same a b ≡ true) ↔ (a ≡ b)

infix 50 ◌==◌
abbrev pub ◌==◌ {ℓ} : {K : Type ℓ} ⦃key : Key K⦄ → K → K → Bool
◌==◌ ⦃key⦄ = key.same

instance abbrev pub number_key : Key ℕ
number_key = record { same = eqb; before = ltb; same_iff = eqb_iff }

instance abbrev pub text_key : Key Text
text_key = record { same = same_text; before = text_lt; same_iff = same_text_iff }

module _ {ℓ} {A B : Type ℓ} ⦃left : Key A⦄ ⦃right : Key B⦄ where
  abbrev pub same_pair : A × B → A × B → Bool
  same_pair (a, b) (c, d) = a == c && b == d

  abbrev pub before_pair : A × B → A × B → Bool
  before_pair (a, b) (c, d) = if a == c then right.before b d else left.before a c

  pub same_pair_iff : (p q : A × B) → (same_pair p q ≡ true) ↔ (p ≡ q)
  same_pair_iff (a, b) (c, d) = grind (arith, left.same_iff a c, right.same_iff b d)

  instance abbrev pub pair_key : Key (A × B)
  pair_key = record { same = same_pair; before = before_pair; same_iff = same_pair_iff }

pub same_refl {ℓ} : {K : Type ℓ} ⦃key : Key K⦄ (k : K) → (k == k) ≡ true
same_refl ⦃key⦄ k = (key.same_iff k k).1 refl

abbrev pub Map {ℓ} : Type ℓ → Type ℓ → Type ℓ
Map K V = List (K × V)

module _ {ℓ} {K V : Type ℓ} ⦃key : Key K⦄ where
  -- `may_load`
  unfoldable pub find : K → Map K V → Option V
  find k [] = none
  find k ((j, v) ∷ m) = if j == k then some v else find k m

  -- `has`
  abbrev pub has : K → Map K V → Bool
  has k m = is_some (find k m)

  -- `save`: in place of the entry of that key, or before the first key that is larger.
  unfoldable pub save : K → V → Map K V → Map K V
  save k v [] = (k, v) ∷ []
  save k v ((j, w) ∷ m) =
      let rest = save k v m in
      if j == k then (k, v) ∷ m else if key.before k j then (k, v) ∷ (j, w) ∷ m else (j, w) ∷ rest

  unfoldable pub remove : K → Map K V → Map K V
  remove k [] = []
  remove k ((j, w) ∷ m) = let rest = remove k m in if j == k then rest else (j, w) ∷ rest

  pub find-save :
      (k i : K) (v : V) (m : Map K V) → find i (save k v m) ≡ (if k == i then some v else find i m)
  unfolding find save
  find-save k i v [] = refl
  find-save k i v ((j, w) ∷ m) =
      ground (arith, key.same_iff j k, key.same_iff j i, key.same_iff k i, find-save k i v m)

  pub find-remove :
      (k i : K) (m : Map K V) → find i (remove k m) ≡ (if k == i then none else find i m)
  unfolding find remove
  find-remove k i [] = ground arith
  find-remove k i ((j, w) ∷ m) =
      ground (arith, key.same_iff j k, key.same_iff j i, key.same_iff k i, find-remove k i m)

  pub find-save_self : (k : K) (v : V) (m : Map K V) → find k (save k v m) ≡ some v
  find-save_self k v m = rw (find-save k k v m) (rw (same_refl k))

-- `prefix`: the entries under the first part of a key.
module _ {ℓ} {K J V : Type ℓ} ⦃key : Key K⦄ where
  unfoldable pub prefix : K → Map (K × J) V → Map J V
  prefix k [] = []
  prefix k (((i, j), v) ∷ m) = let rest = prefix k m in if i == k then (j, v) ∷ rest else rest

-- `.take(n)`
abbrev pub take {ℓ} : {A : Type ℓ} → ℕ → List A → List A
take zero xs = []
take (suc n) [] = []
take (suc n) (x ∷ xs) = x ∷ take n xs

-- `range` from an exclusive bound on, if there is one.
module _ {ℓ} {K V : Type ℓ} ⦃key : Key K⦄ where
  abbrev pub beyond : Option K → Map K V → Map K V
  beyond none m = m
  beyond (some k) [] = []
  beyond (some k) ((j, v) ∷ m) =
      let rest = beyond (some k) m in if key.before k j then (j, v) ∷ rest else rest
