-- ===== src/Prelude/Switch.antt =====
-- A C switch whose cases return values: the first value with the label, or the default.
use Prim.Native.Nat.{ℕ, ◌<◌}
use mathlib.Core.Path.{◌≡◌, refl, ap}
use mathlib.Core.Logic.{◌≢◌, inl, inr}
use mathlib.Core.Bool.{Bool, true, ◌&&◌}
use mathlib.Core.List.{List, [], ◌∷◌, ◌++◌}
use native.Mathlib.Omega.{arith}
use watchfirewall.Prelude.Lists.{Fresh, Distinct}
use watchfirewall.Prelude.Tests.{ltb, ◌==◌, if◌then◌else◌, Bool-cases, ==-ne}

-- Each label is greater than the one before it.
ascending : ℕ → List ℕ → Bool
ascending k [] = true
ascending k (l ∷ ls) = ltb k l && ascending l ls

ascending-Fresh : (j k : ℕ) (ls : List ℕ) → j < k → ascending k ls ≡ true → Fresh j (k ∷ ls)
unfolding ascending
ascending-Fresh j k [] h e = (omega arith, tt)
ascending-Fresh j k (l ∷ ls) h e =
    let (p, q) : (k < l) × (ascending l ls ≡ true) = ground arith in
    (omega arith, ascending-Fresh j l ls (omega arith) q)

ascending-Distinct : (k : ℕ) (ls : List ℕ) → ascending k ls ≡ true → Distinct (k ∷ ls)
unfolding ascending
ascending-Distinct k [] e = (tt, tt)
ascending-Distinct k (l ∷ ls) e =
    let (p, q) : (k < l) × (ascending l ls ≡ true) = ground arith in
    (ascending-Fresh k l ls p q, ascending-Distinct l ls q)

unfoldable pub increasing : List ℕ → Bool
unfolding ascending
increasing [] = true
increasing (k ∷ ls) = ascending k ls

pub increasing-Distinct : (ls : List ℕ) → increasing ls ≡ true → Distinct ls
unfolding increasing
increasing-Distinct [] e = tt
increasing-Distinct (k ∷ ls) e = ascending-Distinct k ls e

module _ {ℓ} {A : Type ℓ} where
  abbrev pub labels : List (ℕ × A) → List ℕ
  labels [] = []
  labels ((k, v) ∷ cs) = k ∷ labels cs

  unfoldable pub switch : List (ℕ × A) → A → ℕ → A
  switch [] d n = d
  switch ((k, v) ∷ cs) d n = if n == k then v else switch cs d n

  -- The value stands at the one label that is the number, or no label is, and the default is taken.
  pub data Chosen (cs : List (ℕ × A)) (d : A) (n : ℕ) (v : A) : Type ℓ where
    case_at :
        (before after : List (ℕ × A))
        → cs ≡ before ++ (n, v) ∷ after
        → Fresh n (labels before)
        → Fresh n (labels after)
        → Chosen cs d n v
    default : Fresh n (labels cs) → v ≡ d → Chosen cs d n v

  pub switch-Chosen :
      (cs : List (ℕ × A)) (d : A) (n : ℕ) → Distinct (labels cs) → Chosen cs d n (switch cs d n)
  unfolding switch
  switch-Chosen [] d n h = default tt refl
  switch-Chosen ((k, v) ∷ cs) d n h = elim (Bool-cases (n == k)) [
    | inl e ↦ let same : n ≡ k = ground arith in rw (e, same) (case_at [] cs refl tt h.0)
    | inr e ↦
        let other : n ≢ k = ground arith in
        rw e (elim (switch-Chosen cs d n h.1) [
          | case_at before after at fresh fresh' ↦
              case_at ((k, v) ∷ before) after (ap (λ l. (k, v) ∷ l) at) (other, fresh) fresh'
          | default fresh at ↦ default (other, fresh) at
        ])
  ]

  pub switch-Fresh : (cs : List (ℕ × A)) (d : A) (n : ℕ) → Fresh n (labels cs) → switch cs d n ≡ d
  unfolding switch
  switch-Fresh [] d n f = refl
  switch-Fresh ((k, v) ∷ cs) d n f = rw (==-ne n k f.0, switch-Fresh cs d n f.1) refl
