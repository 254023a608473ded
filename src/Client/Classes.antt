-- ===== src/Client/Classes.antt =====
-- Which classes of messages a client has after it registers and unregisters.
use Prim.Native.Nat.{max}
use native.Mathlib.Nat.{pow-suc}
use watchfirewall.Prelude.{
  ℕ, suc, ◌-◌, ◌*◌, ◌^◌, ◌<◌, ◌≡◌, ◌↔◌, refl, ap, ◌∙◌, zero, true, arith, ◌==◌,
}
use watchfirewall.Prelude.Bits.{bit, bit-bit_or, bit-complement, bit_and-pow, bit-lt}
use watchfirewall.Kernel.{Atomics, word}
use watchfirewall.Client.{Client, register_message_classes, unregister_message_classes}

pow-pos : (k : ℕ) → 0 < 2 ^ k
pow-pos zero = omega arith
pow-pos (suc k) = omega (arith, pow-suc 2 k, pow-pos k)

all_set : (b p : ℕ) → b < 2 → 0 < p → ((b * p == p) ≡ true) ↔ (b ≡ 1)
all_set zero p h z = (λ e. ground arith, λ e. absurd (omega arith))
all_set (suc zero) p h z = (λ e. refl, λ e. ground arith)
all_set (suc (suc b)) p h z = absurd (omega arith)

none_set : (b p : ℕ) → b < 2 → 0 < p → ((b * p == 0) ≡ true) ↔ (b ≡ 0)
none_set zero p h z = (λ e. refl, λ e. ground arith)
none_set (suc zero) p h z = (λ e. absurd (ground arith), λ e. absurd (omega arith))
none_set (suc (suc b)) p h z = absurd (omega arith)

module _ (os : Atomics) (c : Client) (k j : ℕ) where
  open os use {or_lem}

  -- RegisterMessageClasses adds a class and keeps all others. Its result says that the client had
  -- the class already.
  pub register_message_classes_lem :
      let (had, c') = register_message_classes os (2 ^ k) c in
      (bit j c'.registred_message_clases ≡ max (bit j c.registred_message_clases) (bit j (2 ^ k)))
      × ((had ≡ true) ↔ (bit k c.registred_message_clases ≡ 1))
      × (c'.queue ≡ c.queue)
  unfolding register_message_classes
  register_message_classes_lem =
      let v = c.registred_message_clases in
      rw (or_lem, bit_and-pow)
        (bit-bit_or j v (2 ^ k), all_set (bit k v) (2 ^ k) (bit-lt k v) (pow-pos k), refl)

  -- UnregisterMessageClasses of one of the 32 classes removes nothing: the class stays as it is,
  -- and all others are added. Its result says that the client did not have the class.
  pub unregister_message_classes_lem :
      2 ^ k < word
      → j < 32
      → let (gone, c') = unregister_message_classes os (2 ^ k) c in
        (bit j c'.registred_message_clases
          ≡ max (bit j c.registred_message_clases) (1 - bit j (2 ^ k)))
        × ((gone ≡ true) ↔ (bit k c.registred_message_clases ≡ 0))
        × (c'.queue ≡ c.queue)
  unfolding unregister_message_classes
  unregister_message_classes_lem h i =
      let v = c.registred_message_clases in
      rw (or_lem, bit_and-pow)
        (
          bit-bit_or j v (word - 1 - 2 ^ k) ∙ ap (max (bit j v)) (bit-complement 32 j (2 ^ k) h i),
          none_set (bit k v) (2 ^ k) (bit-lt k v) (pow-pos k),
          refl,
        )
