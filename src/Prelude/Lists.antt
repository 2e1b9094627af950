-- ===== src/Prelude/Lists.antt =====
-- Lists of addresses: membership as a test, distinctness, and how both meet `++`.
use Prim.Native.Nat.{ℕ, suc, ◌+◌}
use mathlib.Core.Path.{◌≡◌, refl}
use mathlib.Core.Bool.{Bool, true, false, not, ◌&&◌, ◌||◌}
use mathlib.Core.List.{List, [], ◌∷◌, ◌++◌}
use native.Mathlib.Omega.{arith}
use rust_fumio.Prelude.Tests.{◌==◌, if◌then◌else◌}

abbrev pub length {ℓ} : {A : Type ℓ} → List A → ℕ
length [] = 0
length (x ∷ xs) = suc (length xs)

abbrev pub is_empty {ℓ} : {A : Type ℓ} → List A → Bool
is_empty [] = true
is_empty (x ∷ xs) = false

abbrev pub has : ℕ → List ℕ → Bool
has a [] = false
has a (x ∷ xs) = (a == x) || has a xs

infix 40 ◌∈◌ ◌∉◌
abbrev pub ◌∈◌ : ℕ → List ℕ → Type 0
a ∈ xs = has a xs ≡ true

abbrev pub ◌∉◌ : ℕ → List ℕ → Type 0
a ∉ xs = has a xs ≡ false

abbrev pub IsDistinct : List ℕ → Type 0
IsDistinct [] = Unit
IsDistinct (x ∷ xs) = (x ∉ xs) × IsDistinct xs

abbrev pub snoc {ℓ} : {A : Type ℓ} → List A → A → List A
snoc xs x = xs ++ x ∷ []

pub length-append {ℓ} : {A : Type ℓ} (xs ys : List A) → length (xs ++ ys) ≡ length xs + length ys
length-append [] ys = omega arith
length-append (x ∷ xs) ys = omega (arith, length-append xs ys)

pub has-append : (a : ℕ) (xs ys : List ℕ) → has a (xs ++ ys) ≡ (has a xs || has a ys)
has-append a [] ys = refl
has-append a (x ∷ xs) ys = ground (arith, has-append a xs ys)

pub IsDistinct-append :
    (xs ys : List ℕ)
    → IsDistinct xs
    → IsDistinct ys
    → ((a : ℕ) → a ∈ xs → a ∉ ys)
    → IsDistinct (xs ++ ys)
IsDistinct-append [] ys dx dy apart = dy
IsDistinct-append (x ∷ xs) ys dx dy apart = (
  ground (arith, has-append x xs ys, apart x),
  IsDistinct-append xs ys dx.1 dy (λ a i. apart a (ground arith)),
)

pub IsDistinct-left : (xs ys : List ℕ) → IsDistinct (xs ++ ys) → IsDistinct xs
IsDistinct-left [] ys d = tt
IsDistinct-left (x ∷ xs) ys d = (ground (arith, has-append x xs ys, d.0), IsDistinct-left xs ys d.1)

pub IsDistinct-right : (xs ys : List ℕ) → IsDistinct (xs ++ ys) → IsDistinct ys
IsDistinct-right [] ys d = d
IsDistinct-right (x ∷ xs) ys d = IsDistinct-right xs ys d.1

pub IsDistinct-apart : (xs ys : List ℕ) → IsDistinct (xs ++ ys) → (a : ℕ) → a ∈ xs → a ∉ ys
IsDistinct-apart [] ys d a i = ground arith
IsDistinct-apart (x ∷ xs) ys d a i =
    ground (arith, has-append x xs ys, d.0, IsDistinct-apart xs ys d.1 a)

-- Moving an element behind the list keeps its elements distinct.
pub IsDistinct-rotate : (x : ℕ) (xs : List ℕ) → IsDistinct (x ∷ xs) → IsDistinct (snoc xs x)
IsDistinct-rotate x xs d = IsDistinct-append xs (x ∷ []) d.1 (refl, tt) (λ a i. ground (arith, d.0))

-- A member of a list differs from what is not on it.
pub ==_of_mem : (a b : ℕ) (xs : List ℕ) → a ∈ xs → b ∉ xs → (a == b) ≡ false
==_of_mem a b xs i o = ground arith

-- How often `a` stands on a list.
abbrev pub count : ℕ → List ℕ → ℕ
count a [] = 0
count a (x ∷ xs) = if a == x then suc (count a xs) else count a xs

pub count-append : (a : ℕ) (xs ys : List ℕ) → count a (xs ++ ys) ≡ count a xs + count a ys
count-append a [] ys = omega arith
count-append a (x ∷ xs) ys = ground (arith, count-append a xs ys)

pub not-mem_of_count : (a : ℕ) (xs : List ℕ) → count a xs ≡ 0 → a ∉ xs
not-mem_of_count a [] e = refl
not-mem_of_count a (x ∷ xs) e = ground (arith, not-mem_of_count a xs)

-- The list without the first `a` on it.
abbrev pub erase : ℕ → List ℕ → List ℕ
erase a [] = []
erase a (x ∷ xs) = if a == x then xs else x ∷ erase a xs

pub erase_out : (a : ℕ) (xs : List ℕ) → a ∉ xs → erase a xs ≡ xs
erase_out a [] o = refl
erase_out a (x ∷ xs) o = ground (arith, erase_out a xs)

pub has-erase :
    (a b : ℕ) (xs : List ℕ) → IsDistinct xs → has b (erase a xs) ≡ (has b xs && not (a == b))
has-erase a b [] d = refl
has-erase a b (x ∷ xs) d = ground (arith, has-erase a b xs, d.0)

pub IsDistinct-erase : (a : ℕ) (xs : List ℕ) → IsDistinct xs → IsDistinct (erase a xs)
IsDistinct-erase a [] d = tt
IsDistinct-erase a (x ∷ xs) d = ground (arith, has-erase a x xs d.1, IsDistinct-erase a xs d.1)

pub IsDistinct-snoc : (xs : List ℕ) (a : ℕ) → IsDistinct xs → a ∉ xs → IsDistinct (snoc xs a)
IsDistinct-snoc xs a d o = IsDistinct-append xs (a ∷ []) d (refl, tt) (λ b i. ground arith)
