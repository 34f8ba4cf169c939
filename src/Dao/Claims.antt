-- ===== src/Dao/Claims.antt =====
-- The claims that a dissolution of the corporation DAO records: what each member gets, and that
-- together they are the treasury.
use sysbreak_trust.Base.{
  ℕ, suc, ◌+◌, ◌*◌, ◌≡◌, ◌∙◌, arith, ok, none, true, false, Bool, [], ◌∷◌, find, save, find-save,
  find-save_self, number_key, pair_key, inl, inr, Result-cases, if◌then◌else◌, Map, length,
  unwrap_or,
}
use sysbreak_trust.Host.{Addr}
use sysbreak_trust.Dao.State.{Corporation, MemberInfo}
use sysbreak_trust.Dao.Helpers.{is_founder}
use sysbreak_trust.Dao.Execution.{record_claims, member_share}

-- The number of founders among some members.
abbrev pub founders : Map Addr MemberInfo → ℕ
founders [] = 0
founders ((a, i) ∷ m) = let rest = founders m in if is_founder i.role then rest + 1 else rest

-- The sum of what some members of a corporation may claim.
abbrev pub claims_of : ℕ → Map Addr MemberInfo → Map (ℕ × Addr) ℕ → ℕ
claims_of id [] claims = 0
claims_of id ((a, i) ∷ m) claims = unwrap_or 0 (find (id, a) claims) + claims_of id m claims

-- No address has two entries.
abbrev pub HasDistinctKeys : Map Addr MemberInfo → Type 0
HasDistinctKeys [] = Unit
HasDistinctKeys ((a, i) ∷ m) = (find a m ≡ none) × HasDistinctKeys m

-- The sum with one member more.
one_more :
    (x s r n f total : ℕ) (b : Bool)
    → x ≡ s + (if b then r else 0)
    → total ≡ s * n + r * f
    → x + total ≡ s * suc n + r * (if b then f + 1 else f)
one_more x s r n f total true e t = omega (arith, e, t)
one_more x s r n f total false e t = omega (arith, e, t)

module _ (id share remainder : ℕ) where
  first_claim :
      (a : Addr) (i : MemberInfo) (m : Map Addr MemberInfo) (c c' : Map (ℕ × Addr) ℕ)
      → record_claims id share remainder ((a, i) ∷ m) c ≡ ok c'
      → (amount : ℕ) × (member_share share remainder i ≡ ok amount)
        × (record_claims id share remainder m (save (id, a) amount c) ≡ ok c')
  unfolding record_claims
  first_claim a i m c c' h = elim (Result-cases (member_share share remainder i)) [
    | inl (x, e) ↦ (x, e, ground arith)
    | inr e ↦ absurd (ground arith)
  ]

  -- The claim of an address that is not among the members stays as it was.
  record_claims-others :
      (a : Addr) (m : Map Addr MemberInfo) (c c' : Map (ℕ × Addr) ℕ)
      → record_claims id share remainder m c ≡ ok c'
      → find a m ≡ none
      → find (id, a) c' ≡ find (id, a) c
  unfolding record_claims find
  record_claims-others a [] c c' h n = ground arith
  record_claims-others a ((b, i) ∷ m) c c' h n =
      let (x, e, k) = first_claim b i m c c' h in
      ground
        (arith, record_claims-others a m (save (id, b) x c) c' k, find-save (id, b) (id, a) x c)

  member_share-amount :
      (i : MemberInfo) (x : ℕ)
      → member_share share remainder i ≡ ok x
      → x ≡ share + (if is_founder i.role then remainder else 0)
  unfolding member_share
  member_share-amount i x h = ground arith

  -- All claims together.
  pub record_claims-total :
      (m : Map Addr MemberInfo) (c c' : Map (ℕ × Addr) ℕ)
      → record_claims id share remainder m c ≡ ok c'
      → HasDistinctKeys m
      → claims_of id m c' ≡ share * length m + remainder * founders m
  record_claims-total [] c c' h u = omega arith
  record_claims-total ((a, i) ∷ m) c c' h (n, u) =
      let (x, e, k) = first_claim a i m c c' h in
      let rest = record_claims-total m (save (id, a) x c) c' k u in
      let mine = record_claims-others a m (save (id, a) x c) c' k n in
      let paid = member_share-amount i x e in
      rw (mine ∙ find-save_self (id, a) x c)
        (one_more x share remainder (length m) (founders m) _ (is_founder i.role) paid rest)

-- The members that storage lists for a corporation: as many as it counts, each once, one founder.
pub record IsRoll (corp : Corporation) (m : Map Addr MemberInfo) : Type 0 where
  pub counted : length m ≡ corp.member_count
  pub distinct : HasDistinctKeys m
  pub one_founder : founders m ≡ 1
