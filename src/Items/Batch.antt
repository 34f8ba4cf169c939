-- ===== src/Items/Batch.antt =====
-- A batch of the item NFT is the same as its mints one after the other.
use sysbreak_trust.Base.{
  ℕ, suc, ◌^◌, ◌<◌, ◌≤◌, ◌≡◌, refl, ap, arith, ok, some, List, [], ◌∷◌, ◌>>=◌, length, Result,
  Result-cases, Option-cases, inl, inr, ◌↔◌, List-cases,
}
use mathlib.Core.Path.{subst}
use sysbreak_trust.Host.{Addr, Deps, MessageInfo, Response}
use sysbreak_trust.Items.State.{Storage, MintRequest, ContractError}
use sysbreak_trust.Items.Mint.{
  minter_only, mint_single, mint_all, validate_all, execute_mint, execute_batch_mint,
  max_batch_size, last_of,
}
use sysbreak_trust.Items.Steps.{
  execute_mint-mints, execute_batch_mint-mints, first_of_batch, mint_single-adds,
}

-- Single mints, one after the other, by the same sender; the storage after the last.
unfoldable pub mint_each :
    Deps → MessageInfo → List MintRequest → Storage → Result ContractError Storage
mint_each d info [] s = ok s
mint_each d info (m ∷ ms) s = do (s', r) ← execute_mint d info m s; mint_each d info ms s'

-- A mint leaves the settings alone, so that its guards hold for the next mint too.
mint_keeps_guards :
    (a : Addr) (m : MintRequest) (s s' : Storage) (c : ℕ) (info : MessageInfo)
    → mint_single a m s ≡ ok (s', c)
    → minter_only info s ≡ ok tt
    → minter_only info s' ≡ ok tt
unfolding minter_only
mint_keeps_guards a m s s' c info h g =
    let (n, e, room, number, added) = mint_single-adds a m s s' c h in rw added g

execute_mint-runs :
    (d : Deps) (info : MessageInfo) (m : MintRequest) (a : Addr) (s s' : Storage) (c : ℕ)
    → minter_only info s ≡ ok tt
    → d.addr_validate m.to ≡ some a
    → mint_single a m s ≡ ok (s', c)
    → (r : Response) × (execute_mint d info m s ≡ ok (s', r))
unfolding execute_mint
execute_mint-runs d info m a s s' c g e h = elim (Result-cases (execute_mint d info m s)) [
  | inl ((t, r), f) ↦ (r, ground arith)
  | inr f ↦ absurd (ground arith)
]

validate_all-first :
    (d : Deps) (m : MintRequest) (ms : List MintRequest) (to : List (Addr × MintRequest))
    → validate_all d (m ∷ ms) ≡ ok to
    → (a : Addr) × (rest : List (Addr × MintRequest)) × (d.addr_validate m.to ≡ some a)
      × (validate_all d ms ≡ ok rest)
      × (to ≡ (a, m) ∷ rest)
unfolding validate_all
validate_all-first d m ms to h = elim (Option-cases (d.addr_validate m.to)) [
  | inl e ↦ absurd (ground arith)
  | inr (a, e) ↦ elim (Result-cases (validate_all d ms)) [
    | inl (rest, f) ↦ (a, rest, e, f, ground arith)
    | inr f ↦ absurd (ground arith)
  ]
]

mint_all-each :
    (d : Deps) (info : MessageInfo) (ms : List MintRequest) (to : List (Addr × MintRequest))
    (s s' : Storage) (counts : List ℕ)
    → minter_only info s ≡ ok tt
    → validate_all d ms ≡ ok to
    → mint_all to s ≡ ok (s', counts)
    → mint_each d info ms s ≡ ok s'
unfolding mint_each validate_all mint_all
mint_all-each d info [] to s s' counts g v h = let none_to : [] ≡ to = ground arith in ground arith
mint_all-each d info (m ∷ ms) to s s' counts g v h =
    let (a, rest, e, v', same) = validate_all-first d m ms to v in
    let h' = subst (λ x. mint_all x s ≡ ok (s', counts)) same h in
    let (t, c, cs, one, more, q) = first_of_batch a m rest s s' counts h' in
    let (r, run) = execute_mint-runs d info m a s t c g e one in
    rw run (mint_all-each d info ms rest t s' cs (mint_keeps_guards a m s t c info one g) v' more)

each-mint_all :
    (d : Deps) (info : MessageInfo) (ms : List MintRequest) (s s' : Storage)
    → mint_each d info ms s ≡ ok s'
    → (to : List (Addr × MintRequest)) × (counts : List ℕ) × (validate_all d ms ≡ ok to)
      × (mint_all to s ≡ ok (s', counts))
      × (length counts ≡ length ms)
unfolding mint_each validate_all mint_all
each-mint_all d info [] s s' h = ([], [], refl, ground arith, refl)
each-mint_all d info (m ∷ ms) s s' h = elim (Result-cases (execute_mint d info m s)) [
  | inl ((t, r), e) ↦
      let (a, c, v, one) = execute_mint-mints d info m s t r e in
      let later : mint_each d info ms t ≡ ok s' = ground arith in
      let (rest, cs, v', more, same) = each-mint_all d info ms t s' later in
      ((a, m) ∷ rest, c ∷ cs, rw (v, v') refl, rw (one, more) refl, ap suc same)
  | inr e ↦ absurd (ground arith)
]

each-guarded :
    (d : Deps) (info : MessageInfo) (m : MintRequest) (ms : List MintRequest) (s s' : Storage)
    → mint_each d info (m ∷ ms) s ≡ ok s'
    → minter_only info s ≡ ok tt
unfolding mint_each execute_mint
each-guarded d info m ms s s' h = elim (Result-cases (minter_only info s)) [
  | inl (u, e) ↦ ground arith
  | inr e ↦ absurd (ground arith)
]

last_of_cons : (x : ℕ) (xs : List ℕ) → (y : ℕ) × (last_of (x ∷ xs) ≡ some y)
last_of_cons x [] = (x, refl)
last_of_cons x (y ∷ xs) = last_of_cons y xs

batch_runs :
    (d : Deps) (info : MessageInfo) (ms : List MintRequest) (s s' : Storage)
    (to : List (Addr × MintRequest)) (c : ℕ) (cs : List ℕ)
    → minter_only info s ≡ ok tt
    → 0 < length ms
    → length ms ≤ max_batch_size
    → validate_all d ms ≡ ok to
    → mint_all to s ≡ ok (s', c ∷ cs)
    → (r : Response) × (execute_batch_mint d info ms s ≡ ok (s', r))
unfolding execute_batch_mint
batch_runs d info ms s s' to c cs g some_mints few v h =
    let (y, last) = last_of_cons c cs in
    elim (Result-cases (execute_batch_mint d info ms s)) [
      | inl ((t, r), f) ↦ (r, ground arith)
      | inr f ↦ absurd (ground arith)
    ]

batch_size :
    (d : Deps) (info : MessageInfo) (ms : List MintRequest) (s s' : Storage) (r : Response)
    → length ms < 2 ^ 32
    → execute_batch_mint d info ms s ≡ ok (s', r)
    → (0 < length ms) × (length ms ≤ max_batch_size) × (minter_only info s ≡ ok tt)
unfolding execute_batch_mint
batch_size d info ms s s' r small h = elim (Result-cases (minter_only info s)) [
  | inl (u, e) ↦ (ground arith, ground arith, ground arith)
  | inr e ↦ absurd (ground arith)
]

each-batch :
    (d : Deps) (info : MessageInfo) (ms : List MintRequest) (s s' : Storage)
    → 0 < length ms
    → length ms ≤ max_batch_size
    → mint_each d info ms s ≡ ok s'
    → (r : Response) × (execute_batch_mint d info ms s ≡ ok (s', r))
each-batch d info [] s s' some_mints few h = absurd (omega arith)
each-batch d info (m ∷ ms) s s' some_mints few h =
    let (to, counts, v, all, same) = each-mint_all d info (m ∷ ms) s s' h in
    elim (List-cases counts) [
      | inl e ↦ absurd (ground arith)
      | inr (c, cs, e) ↦
          batch_runs d info (m ∷ ms) s s' to c cs (each-guarded d info m ms s s' h) some_mints few v
            (subst (λ x. mint_all to s ≡ ok (s', x)) e all)
    ]

-- A batch, of fewer than 2^32 requests as in the 32 bits of the host, succeeds exactly if it has
-- between one and fifty requests and minting them one after the other succeeds; then the storage is
-- the same.
pub batch_is_mints :
    (d : Deps) (info : MessageInfo) (ms : List MintRequest) (s s' : Storage)
    → length ms < 2 ^ 32
    → ((r : Response) × (execute_batch_mint d info ms s ≡ ok (s', r)))
      ↔ ((0 < length ms) × (length ms ≤ 50) × (mint_each d info ms s ≡ ok s'))
batch_is_mints d info ms s s' small = (
  λ (r, h).
      let (some_mints, few, g) = batch_size d info ms s s' r small h in
      let (to, counts, v, all) = execute_batch_mint-mints d info ms s s' r h in
      (some_mints, few, mint_all-each d info ms to s s' counts g v all),
  λ (some_mints, few, h). each-batch d info ms s s' some_mints few h,
)
