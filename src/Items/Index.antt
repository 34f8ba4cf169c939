-- ===== src/Items/Index.antt =====
-- The index of the item NFT's owners, as `migrate` fills it in.
use sysbreak_trust.Base.{
  ◌≡◌, arith, some, Bool, true, [], ◌∷◌, Text, Map, find, save, find-save, eqb_iff, same_text,
  same_text_iff, text_key, number_key, pair_key, ◌⊎◌, inl, inr, Bool-cases, IsFound,
}
use sysbreak_trust.Host.{Addr}
use sysbreak_trust.Items.Contract.{index_owners}

abbrev Index : Type 0
Index = Map (Addr × Text) Bool

-- Saving `true` under a key keeps the entries that are `true`.
save-keeps_true :
    (a b : Addr) (t u : Text) (index : Index)
    → find (a, t) index ≡ some true
    → find (a, t) (save (b, u) true index) ≡ some true
save-keeps_true a b t u index h = ground (arith, find-save (b, u) (a, t) true index)

pub index_owners-keeps :
    (a : Addr) (t : Text) (m : Map Text Addr) (index : Index)
    → find (a, t) index ≡ some true
    → find (a, t) (index_owners m index) ≡ some true
unfolding index_owners
index_owners-keeps a t [] index h = h
index_owners-keeps a t ((u, b) ∷ m) index h =
    index_owners-keeps a t m (save (b, u) true index) (save-keeps_true a b t u index h)

-- Every owner has an entry.
pub index_owners-covers :
    (a : Addr) (t : Text) (m : Map Text Addr) (index : Index)
    → find t m ≡ some a
    → find (a, t) (index_owners m index) ≡ some true
unfolding index_owners find
index_owners-covers a t [] index h = cc
index_owners-covers a t ((u, b) ∷ m) index h = elim (Bool-cases (same_text u t)) [
  | inl same ↦
      index_owners-keeps a t m (save (b, u) true index)
        (ground (arith, find-save (b, u) (a, t) true index, same_text_iff u t, eqb_iff b a))
  | inr other ↦ index_owners-covers a t m (save (b, u) true index) (ground arith)
]

-- An entry was there before, or is that of an owner.
pub index_owners-cases :
    (a : Addr) (t : Text) (v : Bool) (m all : Map Text Addr) (index : Index)
    → IsFound m all
    → find (a, t) (index_owners m index) ≡ some v
    → (find (a, t) index ≡ some v) ⊎ (find t all ≡ some a)
unfolding index_owners
index_owners-cases a t v [] all index f h = inl h
index_owners-cases a t v ((u, b) ∷ m) all index f h = ground (
  arith,
  index_owners-cases a t v m all (save (b, u) true index) f.1 h,
  find-save (b, u) (a, t) true index,
  same_text_iff u t,
  eqb_iff b a,
)
