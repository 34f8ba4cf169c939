-- ===== src/Base/Order.antt =====
-- Storage maps in the order of their keys: `save` and `remove` keep the order, so that a map has one
-- entry for a key and its length is the number of its keys.
use Prim.Native.Nat.{suc, ◌+◌}
use mathlib.Core.Path.{◌≡◌, refl}
use mathlib.Core.Bool.{true, false}
use mathlib.Core.Option.{none, some}
use mathlib.Core.List.{[], ◌∷◌}
use native.Mathlib.Omega.{arith}
use sysbreak_trust.Base.Numbers.{if◌then◌else◌}
use sysbreak_trust.Base.Texts.{Text, text_lt, same_text}
use sysbreak_trust.Base.Lists.{length}
use sysbreak_trust.Base.Maps.{Key, Map, find, has, save, remove, number_key, text_key}

-- The order of the keys is a strict linear order.
pub record KeyOrder {ℓ} {K : Type ℓ} (key : Key K) : Type ℓ where
  pub before_irrefl : (a : K) → key.before a a ≡ false
  pub before_trans :
      (a b c : K) → key.before a b ≡ true → key.before b c ≡ true → key.before a c ≡ true
  pub before_total :
      (a b : K) → key.same a b ≡ false → key.before a b ≡ false → key.before b a ≡ true

text_lt_irrefl : (a : Text) → text_lt a a ≡ false
text_lt_irrefl [] = refl
text_lt_irrefl (x ∷ xs) = ground (arith, text_lt_irrefl xs)

text_lt_trans : (a b c : Text) → text_lt a b ≡ true → text_lt b c ≡ true → text_lt a c ≡ true
text_lt_trans [] [] c p q = cc
text_lt_trans [] (y ∷ ys) [] p q = cc
text_lt_trans [] (y ∷ ys) (z ∷ zs) p q = refl
text_lt_trans (x ∷ xs) [] c p q = cc
text_lt_trans (x ∷ xs) (y ∷ ys) [] p q = cc
text_lt_trans (x ∷ xs) (y ∷ ys) (z ∷ zs) p q = ground (arith, text_lt_trans xs ys zs)

text_lt_total : (a b : Text) → same_text a b ≡ false → text_lt a b ≡ false → text_lt b a ≡ true
text_lt_total [] [] p q = cc
text_lt_total [] (y ∷ ys) p q = cc
text_lt_total (x ∷ xs) [] p q = refl
text_lt_total (x ∷ xs) (y ∷ ys) p q = ground (arith, text_lt_total xs ys)

instance pub text_order : KeyOrder text_key
text_order = record {
  before_irrefl = text_lt_irrefl;
  before_trans = text_lt_trans;
  before_total = text_lt_total;
}

module _ {ℓ} {K V : Type ℓ} ⦃key : Key K⦄ where
  -- All keys come after `k`.
  abbrev pub AllAfter : K → Map K V → Type 0
  AllAfter k [] = Unit
  AllAfter k ((j, v) ∷ m) = (key.before k j ≡ true) × AllAfter k m

  abbrev pub IsAscending : Map K V → Type 0
  IsAscending [] = Unit
  IsAscending ((j, v) ∷ m) = AllAfter j m × IsAscending m

  -- Every entry is the one that is found.
  abbrev pub IsFound : Map K V → Map K V → Type ℓ
  IsFound [] all = Unit
  IsFound ((j, v) ∷ m) all = (find j all ≡ some v) × IsFound m all

module _ {ℓ} {K V : Type ℓ} ⦃key : Key K⦄ ⦃order : KeyOrder key⦄ where
  AllAfter-trans : (j k : K) (m : Map K V) → key.before j k ≡ true → AllAfter k m → AllAfter j m
  AllAfter-trans j k [] b h = tt
  AllAfter-trans j k ((i, v) ∷ m) b h =
      (order.before_trans j k i b (h.0), AllAfter-trans j k m b h.1)

  pub AllAfter-find : (k : K) (m : Map K V) → AllAfter k m → find k m ≡ none
  unfolding find
  AllAfter-find k [] h = refl
  AllAfter-find k ((j, v) ∷ m) h =
      ground (arith, key.same_iff j k, order.before_irrefl k, AllAfter-find k m)

  AllAfter-save :
      (j k : K) (v : V) (m : Map K V)
      → key.before j k ≡ true
      → AllAfter j m
      → AllAfter j (save k v m)
  unfolding save
  AllAfter-save j k v [] b h = (b, tt)
  AllAfter-save j k v ((i, w) ∷ m) b h = ground (arith, AllAfter-save j k v m b)

  pub IsAscending-save : (k : K) (v : V) (m : Map K V) → IsAscending m → IsAscending (save k v m)
  unfolding save
  IsAscending-save k v [] h = (tt, tt)
  IsAscending-save k v ((j, w) ∷ m) h = ground (
    arith,
    key.same_iff j k,
    order.before_total k j,
    order.before_total j k,
    AllAfter-save j k v m,
    AllAfter-trans k j m,
    IsAscending-save k v m,
  )

  AllAfter-remove : (j k : K) (m : Map K V) → AllAfter j m → AllAfter j (remove k m)
  unfolding remove
  AllAfter-remove j k [] h = tt
  AllAfter-remove j k ((i, w) ∷ m) h = ground (arith, AllAfter-remove j k m)

  pub IsAscending-remove : (k : K) (m : Map K V) → IsAscending m → IsAscending (remove k m)
  unfolding remove
  IsAscending-remove k [] h = tt
  IsAscending-remove k ((j, w) ∷ m) h =
      ground (arith, AllAfter-remove j k m, IsAscending-remove k m)

  pub length-save :
      (k : K) (v : V) (m : Map K V)
      → IsAscending m
      → length (save k v m) ≡ (if has k m then length m else suc (length m))
  unfolding save find
  length-save k v [] h = refl
  length-save k v ((j, w) ∷ m) h =
      ground (arith, key.same_iff j k, AllAfter-find k m, AllAfter-trans k j m, length-save k v m)

  remove-absent : (k : K) (m : Map K V) → find k m ≡ none → remove k m ≡ m
  unfolding remove find
  remove-absent k [] h = refl
  remove-absent k ((j, w) ∷ m) h = ground (arith, remove-absent k m)

  pub length-remove :
      (k : K) (m : Map K V)
      → IsAscending m
      → length (remove k m) + (if has k m then 1 else 0) ≡ length m
  unfolding remove find
  length-remove k [] h = refl
  length-remove k ((j, w) ∷ m) h =
      ground (arith, key.same_iff j k, AllAfter-find j m, remove-absent j m, length-remove k m)

  IsFound-cons :
      (j : K) (v : V) (m all : Map K V) → AllAfter j m → IsFound m all → IsFound m ((j, v) ∷ all)
  unfolding find
  IsFound-cons j v [] all h f = tt
  IsFound-cons j v ((i, w) ∷ m) all h f =
      (ground (arith, key.same_iff j i, order.before_irrefl i), IsFound-cons j v m all h.1 f.1)

  pub IsAscending-IsFound : (m : Map K V) → IsAscending m → IsFound m m
  unfolding find
  IsAscending-IsFound [] h = tt
  IsAscending-IsFound ((j, v) ∷ m) h =
      (ground (arith, key.same_iff j j), IsFound-cons j v m m h.0 (IsAscending-IsFound m h.1))
