-- ===== src/Base/Separators.antt =====
-- Texts with a separator between their parts, and where they can be cut.
use Prim.Native.Nat.{ℕ, suc, ◌+◌}
use mathlib.Core.Path.{◌≡◌, refl}
use mathlib.Core.List.{[], ◌∷◌, ◌++◌}
use native.Mathlib.Omega.{arith}
use sysbreak_trust.Base.Numbers.{eqb, if◌then◌else◌}
use sysbreak_trust.Base.Texts.{Text}

-- How often a byte stands in a text.
abbrev pub count : ℕ → Text → ℕ
count b [] = 0
count b (c ∷ cs) = if eqb c b then suc (count b cs) else count b cs

pub count-++ : (b : ℕ) (xs ys : Text) → count b (xs ++ ys) ≡ count b xs + count b ys
count-++ b [] ys = ground arith
count-++ b (c ∷ xs) ys = ground (arith, count-++ b xs ys)

-- Two texts that are equal, with a separator that does not stand before it.
pub cut_first :
    (b : ℕ) (xs ys us vs : Text)
    → count b xs ≡ 0
    → count b ys ≡ 0
    → xs ++ (b ∷ us) ≡ ys ++ (b ∷ vs)
    → (xs ≡ ys) × (us ≡ vs)
cut_first b [] [] us vs h k e = (refl, cc)
cut_first b [] (d ∷ ys) us vs h k e = absurd (ground arith)
cut_first b (c ∷ xs) [] us vs h k e = absurd (ground arith)
cut_first b (c ∷ xs) (d ∷ ys) us vs h k e =
    let same : c ≡ d = cc e in
    let (l, r) = cut_first b xs ys us vs (ground arith) (ground arith) (cc e) in (cc (same, l), r)

-- Two texts that are equal, with as many separators after it.
pub cut_last :
    (b : ℕ) (xs ys us vs : Text)
    → count b us ≡ count b vs
    → xs ++ (b ∷ us) ≡ ys ++ (b ∷ vs)
    → (xs ≡ ys) × (us ≡ vs)
cut_last b [] [] us vs h e = (refl, cc)
cut_last b [] (d ∷ ys) us vs h e =
    let same : us ≡ ys ++ (b ∷ vs) = cc e in absurd (ground (arith, same, count-++ b ys (b ∷ vs)))
cut_last b (c ∷ xs) [] us vs h e =
    let same : xs ++ (b ∷ us) ≡ vs = cc e in absurd (ground (arith, same, count-++ b xs (b ∷ us)))
cut_last b (c ∷ xs) (d ∷ ys) us vs h e =
    let same : c ≡ d = cc e in let (l, r) = cut_last b xs ys us vs h (cc e) in (cc (same, l), r)
