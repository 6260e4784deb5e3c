-- ===== src/Nova/Foundry/Numbers.antt =====
-- vm/nova/vm.go: lists of serial numbers: bounded, ascending, and in the order that the check of a new
-- foundry's serial number asks for.
use axon_go.Common.{
  ℕ, zero, suc, ◌+◌, ◌-◌, ◌≤◌, ◌<◌, ◌==◌, ◌≡◌, ◌≢◌, refl, ap, ◌∙◌, arith, Bool, true, false, List,
  [], ◌∷◌, length, if◌then◌else◌, leb,
}

-- The numbers after `lo`, `n` of them.
abbrev pub numbers_after : ℕ → ℕ → List ℕ
numbers_after lo zero = []
numbers_after lo (suc n) = suc lo ∷ numbers_after (suc lo) n

abbrev pub Ascending : ℕ → ℕ → List ℕ → Type 0
Ascending lo hi [] = Unit {0}
Ascending lo hi (x ∷ xs) = (lo < x) × (x ≤ hi) × Ascending x hi xs

abbrev pub NotIn : ℕ → List ℕ → Type 0
NotIn x [] = Unit {0}
NotIn x (y ∷ ys) = (x ≢ y) × NotIn x ys

abbrev pub Distinct : List ℕ → Type 0
Distinct [] = Unit {0}
Distinct (x ∷ xs) = NotIn x xs × Distinct xs

-- The loop over serial numbers alone.
abbrev pub precedes : ℕ → List ℕ → Bool
precedes n [] = true
precedes n (m ∷ ms) = if m == n then true else if leb n m then false else precedes n ms

pub Ascending-length : (lo hi : ℕ) (xs : List ℕ) → Ascending lo hi xs → length xs ≤ hi - lo
Ascending-length lo hi [] a = omega arith
Ascending-length lo hi (x ∷ xs) (above, below, rest) = omega (arith, Ascending-length x hi xs rest)

-- As many ascending numbers as there are after `lo` up to `hi` are these numbers.
pub Ascending-full :
    (lo hi n : ℕ) (xs : List ℕ)
    → hi ≡ lo + n
    → Ascending lo hi xs
    → length xs ≡ n
    → xs ≡ numbers_after lo n
Ascending-full lo hi zero [] h a e = refl
Ascending-full lo hi (suc n) [] h a e = absurd (omega arith)
Ascending-full lo hi zero (x ∷ xs) h a e = absurd (omega arith)
Ascending-full lo hi (suc n) (x ∷ xs) h (above, below, rest) e =
    let few = Ascending-length x hi xs rest in
    let first : x ≡ suc lo = omega arith in
    let tail = Ascending-full x hi n xs (omega arith) rest (omega arith) in
    (ap (λ (t : List ℕ). x ∷ t) tail) ∙ ap (λ (k : ℕ). k ∷ numbers_after k n) first

-- A list of different numbers, each of which is preceded by smaller numbers only, is ascending.
abbrev pub Bounded : ℕ → ℕ → List ℕ → Type 0
Bounded lo hi [] = Unit {0}
Bounded lo hi (x ∷ xs) = (lo < x) × (x ≤ hi) × Bounded lo hi xs

abbrev pub Passing : List ℕ → List ℕ → Type 0
Passing all [] = Unit {0}
Passing all (x ∷ xs) = (precedes x all ≡ true) × Passing all xs

-- The check against a list with a first number, for numbers that are not the first one.
Passing-rest :
    (x hi lo : ℕ) (all xs : List ℕ)
    → NotIn x xs
    → Bounded lo hi xs
    → Passing (x ∷ all) xs
    → Bounded x hi xs × Passing all xs
Passing-rest x hi lo all [] away b p = (tt, tt)
Passing-rest x hi lo all (y ∷ ys) (other, away) (above, below, b) (py, p) =
    let (b', p') = Passing-rest x hi lo all ys away b p in
    ((ground arith, below, b'), (ground arith, p'))

pub Passing-Ascending :
    (lo hi : ℕ) (xs : List ℕ) → Distinct xs → Bounded lo hi xs → Passing xs xs → Ascending lo hi xs
Passing-Ascending lo hi [] d b p = tt
Passing-Ascending lo hi (x ∷ xs) (away, d) (above, below, b) (px, p) =
    let (b', p') = Passing-rest x hi lo xs xs away b p in
    (above, below, Passing-Ascending x hi xs d b' p')
