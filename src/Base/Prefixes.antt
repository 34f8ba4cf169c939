-- ===== src/Base/Prefixes.antt =====
-- Maps whose keys are pairs: the order of the pairs, and the part of such a map under a first key.
use Prim.Native.Nat.{ℕ, ◌≤◌}
use mathlib.Core.Path.{◌≡◌, refl}
use mathlib.Core.Bool.{true, false}
use mathlib.Core.List.{[], ◌∷◌}
use native.Mathlib.Omega.{arith}
use sysbreak_trust.Base.Numbers.{ltb}
use sysbreak_trust.Base.Lists.{length}
use sysbreak_trust.Base.Maps.{Key, Map, find, prefix, number_key, pair_key, same_pair, before_pair}
use sysbreak_trust.Base.Order.{KeyOrder, AllAfter, IsAscending}

ltb_trans : (a b c : ℕ) → ltb a b ≡ true → ltb b c ≡ true → ltb a c ≡ true
ltb_trans a b c p q = ground arith

instance pub number_order : KeyOrder number_key
number_order = record {
  before_irrefl = λ a. ground arith;
  before_trans = ltb_trans;
  before_total = λ a b p q. ground arith;
}

module _ {ℓ} {A B : Type ℓ} ⦃left : Key A⦄ ⦃right : Key B⦄ ⦃first : KeyOrder left⦄
    ⦃second : KeyOrder right⦄ where
  before_pair_irrefl : (p : A × B) → before_pair p p ≡ false
  before_pair_irrefl (a, b) = ground (arith, left.same_iff a a, second.before_irrefl b)

  before_pair_trans :
      (p q r : A × B) → before_pair p q ≡ true → before_pair q r ≡ true → before_pair p r ≡ true
  before_pair_trans (a, b) (c, d) (e, f) h k = ground (
    arith,
    left.same_iff a c,
    left.same_iff c e,
    left.same_iff a e,
    first.before_trans a c e,
    second.before_trans b d f,
    first.before_trans a c a,
    first.before_irrefl a,
  )

  before_pair_total :
      (p q : A × B) → same_pair p q ≡ false → before_pair p q ≡ false → before_pair q p ≡ true
  before_pair_total (a, b) (c, d) h k =
      ground (
        arith,
        left.same_iff a c,
        left.same_iff c a,
        first.before_total a c,
        second.before_total b d,
      )

  instance pub pair_order : KeyOrder (pair_key ⦃left = left⦄ ⦃right = right⦄)
  pair_order = record {
    before_irrefl = before_pair_irrefl;
    before_trans = before_pair_trans;
    before_total = before_pair_total;
  }

module _ {ℓ} {K J V : Type ℓ} ⦃key : Key K⦄ ⦃inner : Key J⦄ where
  pub find-prefix : (k : K) (j : J) (m : Map (K × J) V) → find j (prefix k m) ≡ find (k, j) m
  unfolding find prefix
  find-prefix k j [] = refl
  find-prefix k j (((i, n), v) ∷ m) = ground (arith, find-prefix k j m)

  AllAfter-prefix :
      (k : K) (j : J) (m : Map (K × J) V) → AllAfter (k, j) m → AllAfter j (prefix k m)
  unfolding prefix
  AllAfter-prefix k j [] h = tt
  AllAfter-prefix k j (((i, n), v) ∷ m) h =
      ground (arith, key.same_iff i k, key.same_iff k i, AllAfter-prefix k j m)

  pub IsAscending-prefix : (k : K) (m : Map (K × J) V) → IsAscending m → IsAscending (prefix k m)
  unfolding prefix
  IsAscending-prefix k [] h = tt
  IsAscending-prefix k (((i, n), v) ∷ m) h =
      ground (arith, key.same_iff i k, AllAfter-prefix k n m, IsAscending-prefix k m)

  pub length-prefix : (k : K) (m : Map (K × J) V) → length (prefix k m) ≤ length m
  unfolding prefix
  length-prefix k [] = omega arith
  length-prefix k (((i, n), v) ∷ m) = ground (arith, length-prefix k m)
