-- ===== src/Prelude/Lists.antt =====
-- Lists measured by native numbers, and predicates on lists by recursion.
use Prim.Native.Nat.{ℕ, suc, ◌+◌}
use mathlib.Core.Path.{◌≡◌, refl, sym}
use mathlib.Core.Logic.{◌≢◌}
use mathlib.Core.List.{List, [], ◌∷◌, ◌++◌}
use native.Mathlib.Omega.{arith}

module _ {ℓ} {A : Type ℓ} where
  abbrev pub length : List A → ℕ
  length [] = 0
  length (x ∷ xs) = suc (length xs)

  pub length-append : (xs ys : List A) → length (xs ++ ys) ≡ length xs + length ys
  length-append [] ys = omega arith
  length-append (x ∷ xs) ys = omega (arith, length-append xs ys)

abbrev pub All {ℓ κ} : {A : Type ℓ} → (A → Type κ) → List A → Type κ
All P [] = Unit
All P (x ∷ xs) = P x × All P xs

module _ {ℓ κ} {A : Type ℓ} (P : A → Type κ) where
  pub All-append : (xs ys : List A) → All P xs → All P ys → All P (xs ++ ys)
  All-append [] ys a b = b
  All-append (x ∷ xs) ys a b = (a.0, All-append xs ys a.1 b)

  pub All-append_left : (xs ys : List A) → All P (xs ++ ys) → All P xs
  All-append_left [] ys a = tt
  All-append_left (x ∷ xs) ys a = (a.0, All-append_left xs ys a.1)

  pub All-append_right : (xs ys : List A) → All P (xs ++ ys) → All P ys
  All-append_right [] ys a = a
  All-append_right (x ∷ xs) ys a = All-append_right xs ys a.1

-- `x` is none of the addresses of the list.
abbrev pub Fresh : ℕ → List ℕ → Type 0
Fresh x [] = Unit {0}
Fresh x (y ∷ ys) = (x ≢ y) × Fresh x ys

abbrev pub Distinct : List ℕ → Type 0
Distinct [] = Unit {0}
Distinct (x ∷ xs) = Fresh x xs × Distinct xs

-- The last address of a list with first address `a`.
abbrev pub last : ℕ → List ℕ → ℕ
last a [] = a
last a (b ∷ xs) = last b xs

pub Fresh-append : (x : ℕ) (xs ys : List ℕ) → Fresh x xs → Fresh x ys → Fresh x (xs ++ ys)
Fresh-append x [] ys f g = g
Fresh-append x (y ∷ xs) ys f g = (f.0, Fresh-append x xs ys f.1 g)

pub Fresh-append_left : (x : ℕ) (xs ys : List ℕ) → Fresh x (xs ++ ys) → Fresh x xs
Fresh-append_left x [] ys f = tt
Fresh-append_left x (y ∷ xs) ys f = (f.0, Fresh-append_left x xs ys f.1)

pub Fresh-append_right : (x : ℕ) (xs ys : List ℕ) → Fresh x (xs ++ ys) → Fresh x ys
Fresh-append_right x [] ys f = f
Fresh-append_right x (y ∷ xs) ys f = Fresh-append_right x xs ys f.1

pub Fresh-last : (x a : ℕ) (xs : List ℕ) → Fresh x (a ∷ xs) → x ≢ last a xs
Fresh-last x a [] f = f.0
Fresh-last x a (b ∷ xs) f = Fresh-last x b xs f.1

-- Leaving one address out keeps the others distinct.
pub Fresh-drop : (x y : ℕ) (xs ys : List ℕ) → Fresh x (xs ++ y ∷ ys) → Fresh x (xs ++ ys)
Fresh-drop x y [] ys f = f.1
Fresh-drop x y (z ∷ xs) ys f = (f.0, Fresh-drop x y xs ys f.1)

pub Distinct-drop : (y : ℕ) (xs ys : List ℕ) → Distinct (xs ++ y ∷ ys) → Distinct (xs ++ ys)
Distinct-drop y [] ys d = d.1
Distinct-drop y (x ∷ xs) ys d = (Fresh-drop x y xs ys d.0, Distinct-drop y xs ys d.1)

pub Distinct-middle : (y : ℕ) (xs ys : List ℕ) → Distinct (xs ++ y ∷ ys) → Fresh y (xs ++ ys)
Distinct-middle y [] ys d = d.0
Distinct-middle y (x ∷ xs) ys d =
    (λ e. Fresh-middle x y xs ys d.0 (sym e), Distinct-middle y xs ys d.1)
  where
    Fresh-middle : (x y : ℕ) (xs ys : List ℕ) → Fresh x (xs ++ y ∷ ys) → x ≢ y
    Fresh-middle x y [] ys f = f.0
    Fresh-middle x y (z ∷ xs) ys f = Fresh-middle x y xs ys f.1

pub Fresh-insert : (x y : ℕ) (xs ys : List ℕ) → x ≢ y → Fresh x (xs ++ ys) → Fresh x (xs ++ y ∷ ys)
Fresh-insert x y [] ys n f = (n, f)
Fresh-insert x y (z ∷ xs) ys n f = (f.0, Fresh-insert x y xs ys n f.1)

pub Distinct-insert :
    (y : ℕ) (xs ys : List ℕ) → Fresh y (xs ++ ys) → Distinct (xs ++ ys) → Distinct (xs ++ y ∷ ys)
Distinct-insert y [] ys f d = (f, d)
Distinct-insert y (x ∷ xs) ys f d =
    (Fresh-insert x y xs ys (λ e. f.0 (sym e)) d.0, Distinct-insert y xs ys f.1 d.1)

pub Distinct-last : (a : ℕ) (xs ys : List ℕ) → Distinct (a ∷ (xs ++ ys)) → Fresh (last a xs) ys
Distinct-last a [] ys d = d.0
Distinct-last a (b ∷ xs) ys d = Distinct-last b xs ys d.1

pub Distinct-append_left : (xs ys : List ℕ) → Distinct (xs ++ ys) → Distinct xs
Distinct-append_left [] ys d = tt
Distinct-append_left (x ∷ xs) ys d = (Fresh-append_left x xs ys d.0, Distinct-append_left xs ys d.1)

pub Distinct-snoc : (y : ℕ) (xs : List ℕ) → Fresh y xs → Distinct xs → Distinct (xs ++ y ∷ [])
Distinct-snoc y [] f d = (tt, tt)
Distinct-snoc y (x ∷ xs) f d =
    (Fresh-append x xs (y ∷ []) d.0 (λ e. f.0 (sym e), tt), Distinct-snoc y xs f.1 d.1)

pub last-snoc : (q : ℕ) (xs : List ℕ) (x : ℕ) → last q (xs ++ x ∷ []) ≡ x
last-snoc q [] x = refl
last-snoc q (y ∷ xs) x = last-snoc y xs x
