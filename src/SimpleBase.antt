-- ===== src/SimpleBase.antt =====
-- Kext/simpleBase.h: the reference count of rules, applications, messages and clients.
use watchfirewall.Prelude.{
  ℕ, suc, ◌+◌, ◌-◌, ◌%◌, ◌≡◌, ◌<◌, refl, ap, ◌∙◌, Bool, true, false, arith, ◌==◌,
}
use watchfirewall.Kernel.{Atomics, word}

module _ (os : Atomics) where
  open os use {increment, decrement, increment_lem, decrement_lem}

  -- The count after Retain.
  unfoldable pub retain : ℕ → ℕ
  retain references = (increment references).1

  -- The count after Release, and whether it calls Free.
  unfoldable pub release : ℕ → ℕ × Bool
  release references =
      let (before, after) = decrement references in (after, (before + word - 1) % word == 0)

  pub retain_lem : (n : ℕ) → suc n < word → retain n ≡ suc n
  unfolding retain
  retain_lem n h = ap (λ p. p.1) (increment_lem n) ∙ omega arith

  pub release_last : release 1 ≡ (0, true)
  unfolding release
  release_last = rw decrement_lem refl

  pub release_shared : (n : ℕ) → 1 < n → n < word → release n ≡ (n - 1, false)
  unfolding release
  release_shared n h k = rw decrement_lem (ground arith)

  -- A release behind a retain gives back the count and does not call Free, where somebody holds a
  -- reference and the count is not the largest.
  pub release-retain : (n : ℕ) → 0 < n → suc n < word → release (retain n) ≡ (n, false)
  release-retain n h k =
      let same : suc n - 1 ≡ n = omega arith in
      ap release (retain_lem n k)
      ∙ release_shared (suc n) (omega arith) k
      ∙ ap (λ m. (m, false)) same
