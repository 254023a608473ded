-- ===== src/Kernel.antt =====
-- The atomic operations of libkern, which the extension calls. They are not in the repository, so
-- they are a parameter with their documented behaviour: each returns the value that the 32-bit
-- word held before, and stores the new one.
use watchfirewall.Prelude.{ℕ, ◌+◌, ◌-◌, ◌%◌, ◌^◌, ◌≡◌, refl, bit_or}

abbrev pub word : ℕ
word = 2 ^ 32

pub record Atomics : Type 0 where
  -- OSIncrementAtomic, OSDecrementAtomic and OSBitOrAtomic: (returned, stored).
  pub increment : ℕ → ℕ × ℕ
  pub decrement : ℕ → ℕ × ℕ
  pub or : ℕ → ℕ → ℕ × ℕ
  pub increment_lem : (v : ℕ) → increment v ≡ (v, (v + 1) % word)
  pub decrement_lem : (v : ℕ) → decrement v ≡ (v, (v + word - 1) % word)
  pub or_lem : (mask v : ℕ) → or mask v ≡ (v, bit_or v mask)

-- Operations that meet the assumptions.
abbrev pub plain_atomics : Atomics
plain_atomics = record {
  increment = λ v. (v, (v + 1) % word);
  decrement = λ v. (v, (v + word - 1) % word);
  or = λ mask v. (v, bit_or v mask);
  increment_lem = λ v. refl;
  decrement_lem = λ v. refl;
  or_lem = λ mask v. refl;
}
