-- ===== src/Base/Paging.antt =====
-- Listing a map page by page: a client asks for the entries beyond the last key that it got, until
-- a page is empty.
use Prim.Native.Nat.{ℕ, zero, suc, ◌<◌, ◌≤◌}
use mathlib.Core.Path.{◌≡◌, refl, sym, ap, ◌∙◌}
use mathlib.Core.Path.{subst}
use mathlib.Core.Bool.{true, false}
use mathlib.Core.Option.{Option, none, some}
use mathlib.Core.List.{List, [], ◌∷◌, ◌++◌, map}
use native.Mathlib.Omega.{arith}
use sysbreak_trust.Base.Numbers.{if◌then◌else◌}
use sysbreak_trust.Base.Lists.{length}
use sysbreak_trust.Base.Maps.{Key, Map, find, has, take, beyond, ◌==◌}
use sysbreak_trust.Base.Order.{KeyOrder, AllAfter, IsAscending, AllAfter-find}

module _ {ℓ} {A : Type ℓ} where
  abbrev last_of_list : A → List A → A
  last_of_list d [] = d
  last_of_list d (x ∷ xs) = last_of_list x xs

  last_of_list-snoc : (d k : A) (ys : List A) → last_of_list d (ys ++ (k ∷ [])) ≡ k
  last_of_list-snoc d k [] = refl
  last_of_list-snoc d k (y ∷ ys) = last_of_list-snoc y k ys

  append_assoc : (xs ys zs : List A) → (xs ++ ys) ++ zs ≡ xs ++ (ys ++ zs)
  append_assoc [] ys zs = refl
  append_assoc (x ∷ xs) ys zs = ap (λ r. x ∷ r) (append_assoc xs ys zs)

  -- A page that is not empty, with what the client gets after its last key.
  abbrev and_after : List A → (A → List A) → List A
  and_after [] next = []
  and_after (x ∷ xs) next = (x ∷ xs) ++ next (last_of_list x xs)

  -- The pages that a client gets in some rounds, one after the other.
  unfoldable pub all_pages : ℕ → (Option A → List A) → Option A → List A
  all_pages zero ask start = []
  all_pages (suc rounds) ask start = and_after (ask start) (λ k. all_pages rounds ask (some k))

  pages_end :
      (rounds : ℕ) (ask : Option A → List A) (start : Option A)
      → ask start ≡ []
      → all_pages rounds ask start ≡ []
  unfolding all_pages
  pages_end zero ask start h = refl
  pages_end (suc rounds) ask start h = ap (λ p. and_after p (λ k. all_pages rounds ask (some k))) h

  and_after-snoc :
      (ys : List A) (k : A) (next : A → List A)
      → and_after (ys ++ (k ∷ [])) next ≡ (ys ++ (k ∷ [])) ++ next k
  and_after-snoc [] k next = refl
  and_after-snoc (y ∷ ys) k next =
      ap (λ l. (y ∷ (ys ++ (k ∷ []))) ++ next l) (last_of_list-snoc y k ys)

  pages_go :
      (rounds : ℕ) (ask : Option A → List A) (start : Option A) (ys : List A) (k : A)
      → ask start ≡ ys ++ (k ∷ [])
      → all_pages (suc rounds) ask start ≡ (ys ++ (k ∷ [])) ++ all_pages rounds ask (some k)
  unfolding all_pages
  pages_go rounds ask start ys k h =
      ap (λ p. and_after p (λ j. all_pages rounds ask (some j))) h
      ∙ and_after-snoc ys k (λ j. all_pages rounds ask (some j))

-- The keys of a map.
abbrev pub keys {ℓ} : {K V : Type ℓ} → Map K V → List K
keys m = map (λ e. e.0) m

module _ {ℓ} {K V : Type ℓ} where
  -- A page that is not empty ends with an entry, and the rest is shorter.
  page_split :
      (l : ℕ) (e : K × V) (m : Map K V)
      → (ys : Map K V) × (k : K) × (v : V) × (rest : Map K V) × (e ∷ m ≡ ys ++ ((k, v) ∷ rest))
        × (keys (take (suc l) (e ∷ m)) ≡ keys ys ++ (k ∷ []))
        × (length rest < length (e ∷ m))
  page_split zero (k, v) m = ([], k, v, m, refl, refl, omega arith)
  page_split (suc l) (k, v) [] = ([], k, v, [], refl, refl, omega arith)
  page_split (suc l) (k, v) (e ∷ m) =
      let (ys, j, w, rest, whole, page, less) = page_split l e m in
      (
        (k, v) ∷ ys,
        j,
        w,
        rest,
        ap (λ r. (k, v) ∷ r) whole,
        ap (λ r. k ∷ r) page,
        omega (arith, less),
      )

  keys-append : (a b : Map K V) → keys (a ++ b) ≡ keys a ++ keys b
  keys-append [] b = refl
  keys-append ((k, v) ∷ a) b = ap (λ r. k ∷ r) (keys-append a b)

not_before {ℓ} :
    {K : Type ℓ} ⦃key : Key K⦄ ⦃order : KeyOrder key⦄ (j k : K)
    → key.before j k ≡ true
    → key.before k j ≡ false
not_before ⦃key⦄ ⦃order⦄ j k h = ground (arith, order.before_trans j k j h, order.before_irrefl j)

module _ {ℓ} {K V : Type ℓ} ⦃key : Key K⦄ ⦃order : KeyOrder key⦄ where
  beyond_all : (k : K) (m : Map K V) → AllAfter k m → beyond (some k) m ≡ m
  beyond_all k [] h = refl
  beyond_all k ((j, v) ∷ m) h = rw (h.0) (ap (λ r. (j, v) ∷ r) (beyond_all k m h.1))

  AllAfter-later :
      (j k : K) (v : V) (ys rest : Map K V)
      → AllAfter j (ys ++ ((k, v) ∷ rest))
      → key.before j k ≡ true
  AllAfter-later j k v [] rest h = h.0
  AllAfter-later j k v (y ∷ ys) rest h = AllAfter-later j k v ys rest h.1

  -- The entries beyond a key are those that come after it.
  beyond-append :
      (k : K) (v : V) (ys rest : Map K V)
      → IsAscending (ys ++ ((k, v) ∷ rest))
      → beyond (some k) (ys ++ ((k, v) ∷ rest)) ≡ rest
  beyond-append k v [] rest h = rw (order.before_irrefl k) (beyond_all k rest h.0)
  beyond-append k v ((j, w) ∷ ys) rest h =
      rw (not_before j k (AllAfter-later j k v ys rest h.0)) (beyond-append k v ys rest h.1)

  -- Asking for pages of at least one key lists all keys of a map in their order, once each, in as
  -- many rounds as there are keys.
  rest_pages :
      (rounds l : ℕ) (start : Option K) (pre rest m : Map K V)
      → IsAscending m
      → m ≡ pre ++ rest
      → beyond start m ≡ rest
      → length rest ≤ rounds
      → all_pages rounds (λ s. keys (take (suc l) (beyond s m))) start ≡ keys rest
  rest_pages rounds l start pre [] m asc whole at fuel =
      pages_end rounds (λ s. keys (take (suc l) (beyond s m))) start
        (ap (λ r. keys (take (suc l) r)) at)
  rest_pages zero l start pre (e ∷ rest) m asc whole at fuel = absurd (omega (arith, fuel))
  rest_pages (suc rounds) l start pre (e ∷ rest) m asc whole at fuel =
      let (ys, k, v, more, parts, page, less) = page_split l e rest in
      let ask : Option K → List K = λ s. keys (take (suc l) (beyond s m)) in
      let whole' : m ≡ (pre ++ ys) ++ ((k, v) ∷ more) =
        whole ∙ ap (λ r. pre ++ r) parts ∙ sym (append_assoc pre ys ((k, v) ∷ more)) in
      let at' : beyond (some k) m ≡ more =
        ap (beyond (some k)) whole'
        ∙ beyond-append k v (pre ++ ys) more (subst IsAscending whole' asc) in
      let first =
        pages_go rounds ask start (keys ys) k (ap (λ r. keys (take (suc l) r)) at ∙ page) in
      let others =
        rest_pages rounds l (some k) ((pre ++ ys) ++ ((k, v) ∷ [])) more m asc
          (whole' ∙ sym (append_assoc (pre ++ ys) ((k, v) ∷ []) more)) at'
          (omega (arith, less, fuel)) in
      first
      ∙ ap (λ r. (keys ys ++ (k ∷ [])) ++ r) others
      ∙ append_assoc (keys ys) (k ∷ []) (keys more)
      ∙ sym (keys-append ys ((k, v) ∷ more))
      ∙ ap keys (sym parts)

  pub pages_list_keys :
      (rounds l : ℕ) (m : Map K V)
      → IsAscending m
      → 0 < l
      → length m ≤ rounds
      → all_pages rounds (λ s. keys (take l (beyond s m))) none ≡ keys m
  pages_list_keys rounds zero m asc some_keys fuel = absurd (omega (arith, some_keys))
  pages_list_keys rounds (suc l) m asc some_keys fuel =
      rest_pages rounds l none [] m m asc refl refl fuel

-- How often a key is listed.
abbrev pub occurrences {ℓ} : {K : Type ℓ} ⦃key : Key K⦄ → K → List K → ℕ
occurrences k [] = 0
occurrences k (x ∷ xs) = let rest = occurrences k xs in if x == k then suc rest else rest

module _ {ℓ} {K V : Type ℓ} ⦃key : Key K⦄ ⦃order : KeyOrder key⦄ where
  -- The keys of a map are listed once each.
  pub occurrences-keys :
      (k : K) (m : Map K V) → IsAscending m → occurrences k (keys m) ≡ (if has k m then 1 else 0)
  unfolding find
  occurrences-keys k [] h = refl
  occurrences-keys k ((j, v) ∷ m) h =
      ground (arith, key.same_iff j k, AllAfter-find k m, AllAfter-find j m, occurrences-keys k m)
