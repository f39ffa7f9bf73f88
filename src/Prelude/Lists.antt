-- ===== src/Prelude/Lists.antt =====
-- Lists measured by native numbers, under the library's names.
use Prim.Native.Nat.{ℕ, suc, ◌+◌}
use mathlib.Core.Path.{◌≡◌, refl}
use mathlib.Core.Logic.{ite}
use mathlib.Core.List.{List, [], ◌∷◌, ◌++◌}
use native.Mathlib.Omega.{arith}
use native.Mathlib.Decide.{ℕ_discrete}

abbrev pub length {ℓ} : {A : Type ℓ} → List A → ℕ
length [] = 0
length (x ∷ xs) = suc (length xs)

-- How often a number stands in a list.
unfoldable pub count : ℕ → List ℕ → ℕ
count a [] = 0
count a (x ∷ xs) = ite (ℕ_discrete x a) 1 0 + count a xs

pub count-append : (a : ℕ) (xs ys : List ℕ) → count a (xs ++ ys) ≡ count a xs + count a ys
unfolding count
count-append a [] ys = omega arith
count-append a (x ∷ xs) ys = omega (arith, count-append a xs ys)

pub count-cons : (a x : ℕ) (xs : List ℕ) → count a (x ∷ xs) ≡ count a (x ∷ []) + count a xs
unfolding count
count-cons a x xs = omega arith

pub count-nil : (a : ℕ) → count a [] ≡ 0
unfolding count
count-nil a = refl

-- Two lists hold the same items, as often.
abbrev pub SameItems : List ℕ → List ℕ → Type 0
SameItems xs ys = (a : ℕ) → count a xs ≡ count a ys

pub length-append {ℓ} : {A : Type ℓ} (xs ys : List A) → length (xs ++ ys) ≡ length xs + length ys
length-append [] ys = omega arith
length-append (x ∷ xs) ys = omega (arith, length-append xs ys)

-- The items of the first list put on the second one by one: the newest comes first.
abbrev pub push_all {ℓ} : {A : Type ℓ} → List A → List A → List A
push_all [] h = h
push_all (x ∷ xs) h = push_all xs (x ∷ h)

pub push_all-push_all {ℓ} :
    {A : Type ℓ} (xs ys zs : List A) → push_all (push_all xs ys) zs ≡ push_all ys (xs ++ zs)
push_all-push_all [] ys zs = refl
push_all-push_all (x ∷ xs) ys zs = push_all-push_all xs (x ∷ ys) zs

pub push_all-append {ℓ} :
    {A : Type ℓ} (xs ys zs : List A) → push_all (xs ++ ys) zs ≡ push_all ys (push_all xs zs)
push_all-append [] ys zs = refl
push_all-append (x ∷ xs) ys zs = push_all-append xs ys (x ∷ zs)
