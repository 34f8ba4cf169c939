-- ===== src/Achievements/Index.antt =====
-- The index of the achievement NFT's owners, as `migrate` fills it in.
use sysbreak_trust.Base.{
  ◌≡◌, arith, some, Bool, true, [], ◌∷◌, Text, Map, find, save, find-save, eqb_iff, same_text,
  same_text_iff, text_key, number_key, pair_key, ◌⊎◌, inl, inr, Bool-cases, IsFound, Has,
}
use sysbreak_trust.Host.{Addr}
use sysbreak_trust.Achievements.State.{TokenData}
use sysbreak_trust.Achievements.Contract.{index_owners}

abbrev Index : Type 0
Index = Map (Addr × Text) Bool

-- Saving `true` under a key keeps the entries that are `true`.
save-keeps_true :
    (a b : Addr) (t u : Text) (index : Index)
    → find (a, t) index ≡ some true
    → find (a, t) (save (b, u) true index) ≡ some true
save-keeps_true a b t u index h = ground (arith, find-save (b, u) (a, t) true index)

pub index_owners-keeps :
    (a : Addr) (t : Text) (m : Map Text TokenData) (index : Index)
    → find (a, t) index ≡ some true
    → find (a, t) (index_owners m index) ≡ some true
unfolding index_owners
index_owners-keeps a t [] index h = h
index_owners-keeps a t ((u, k) ∷ m) index h =
    index_owners-keeps a t m (save (k.owner, u) true index) (save-keeps_true a k.owner t u index h)

-- Every owner has an entry.
pub index_owners-covers :
    (a : Addr) (t : Text) (m : Map Text TokenData) (index : Index)
    → Has (λ token. token.owner ≡ a) (find t m)
    → find (a, t) (index_owners m index) ≡ some true
unfolding index_owners find
index_owners-covers a t [] index h = absurd h
index_owners-covers a t ((u, k) ∷ m) index h = elim (Bool-cases (same_text u t)) [
  | inl same ↦ index_owners-keeps a t m (save (k.owner, u) true index) (
      ground
        (arith, find-save (k.owner, u) (a, t) true index, same_text_iff u t, eqb_iff k.owner a))
  | inr other ↦ index_owners-covers a t m (save (k.owner, u) true index) (ground arith)
]

-- An entry was there before, or is that of an owner.
pub index_owners-cases :
    (a : Addr) (t : Text) (v : Bool) (m all : Map Text TokenData) (index : Index)
    → IsFound m all
    → find (a, t) (index_owners m index) ≡ some v
    → (find (a, t) index ≡ some v) ⊎ Has (λ token. token.owner ≡ a) (find t all)
unfolding index_owners
index_owners-cases a t v [] all index f h = inl h
index_owners-cases a t v ((u, k) ∷ m) all index f h = ground (
  arith,
  index_owners-cases a t v m all (save (k.owner, u) true index) f.1 h,
  find-save (k.owner, u) (a, t) true index,
  same_text_iff u t,
  eqb_iff k.owner a,
)
