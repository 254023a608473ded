-- ===== src/Firewall/Reads.antt =====
-- Reading numbers of 2 and 4 bytes from a buffer (Kext/firewall.cpp, ConsoleTest/Console.cpp) in which some bytes stand.
use watchfirewall.Prelude.{
  ℕ, zero, suc, ◌+◌, ◌-◌, ◌*◌, ◌/◌, ◌%◌, ◌<◌, ◌≡◌, refl, ap, ◌∙◌, List, [], ◌∷◌, ◌++◌, arith,
  length, length-append, sym, subst, ◌≤◌,
}
use watchfirewall.Kernel.{word}
use watchfirewall.Messages.Address.{take, drop}
use watchfirewall.Firewall.Request.{
  bytes_from, Memory, read_16, read_32, message_size, message_type,
}

abbrev pub nth : List ℕ → ℕ → ℕ
nth [] k = 0
nth (b ∷ bs) zero = b
nth (b ∷ bs) (suc k) = nth bs k

-- The bytes stand in the buffer, from an offset on.
abbrev pub Stands : Memory → ℕ → List ℕ → Type 0
Stands mem at bs = (k : ℕ) → k < length bs → mem (at + k) ≡ nth bs k

abbrev pub nth_16 : List ℕ → ℕ → ℕ
nth_16 bs k = nth bs k + 256 * nth bs (k + 1)

module _ (mem : Memory) (at : ℕ) (bs : List ℕ) (h : Stands mem at bs) where
  pub read_16-Stands : (k : ℕ) → k + 1 < length bs → read_16 mem (at + k) ≡ nth_16 bs k
  read_16-Stands k l =
      let next : at + k + 1 ≡ at + (k + 1) = omega arith in
      rw (h k (omega arith), next, h (k + 1) l) refl

  pub read_32-Stands :
      (k : ℕ) → k + 3 < length bs → read_32 mem (at + k) ≡ nth_16 bs k + 65536 * nth_16 bs (k + 2)
  read_32-Stands k l =
      let next : at + k + 2 ≡ at + (k + 2) = omega arith in
      rw (read_16-Stands k (omega arith), next, read_16-Stands (k + 2) (omega arith)) refl

  pub message_size-Stands : 3 < length bs → message_size mem at ≡ nth_16 bs 0
  unfolding message_size
  message_size-Stands l =
      let here : at ≡ at + 0 = omega arith in ap (read_16 mem) here ∙ read_16-Stands 0 (omega arith)

  pub message_type-Stands : 3 < length bs → message_type mem at ≡ nth_16 bs 2
  unfolding message_type
  message_type-Stands l = read_16-Stands 2 l

pub joined_32 :
    (v : ℕ)
    → v < word
    → v % 256 + 256 * (v / 256 % 256) + 65536 * (v / 65536 % 256 + 256 * (v / 16777216 % 256)) ≡ v
joined_32 v h = omega arith

pub joined_16 : (v : ℕ) → v < 65536 → v % 256 + 256 * (v / 256 % 256) ≡ v
joined_16 v h = omega arith

nth-append_left : (xs ys : List ℕ) (k : ℕ) → k < length xs → nth (xs ++ ys) k ≡ nth xs k
nth-append_left [] ys k h = absurd (omega arith)
nth-append_left (x ∷ xs) ys zero h = refl
nth-append_left (x ∷ xs) ys (suc k) h = nth-append_left xs ys k (omega arith)

nth-append_right : (xs ys : List ℕ) (k : ℕ) → nth (xs ++ ys) (length xs + k) ≡ nth ys k
nth-append_right [] ys k = let same : 0 + k ≡ k = omega arith in ap (nth ys) same
nth-append_right (x ∷ xs) ys k =
    let same : suc (length xs) + k ≡ suc (length xs + k) = omega arith in
    ap (nth (x ∷ xs ++ ys)) same ∙ nth-append_right xs ys k

module _ (mem : Memory) (at : ℕ) (xs ys : List ℕ) (h : Stands mem at (xs ++ ys)) where
  pub Stands-left : Stands mem at xs
  Stands-left k l = h k (omega (arith, length-append xs ys)) ∙ nth-append_left xs ys k l

  pub Stands-right : Stands mem (at + length xs) ys
  Stands-right k l =
      let same : at + length xs + k ≡ at + (length xs + k) = omega arith in
      ap mem same
      ∙ h (length xs + k) (omega (arith, length-append xs ys))
      ∙ nth-append_right xs ys k

  pub Stands-to : (n : ℕ) → at + length xs ≡ n → Stands mem n ys
  Stands-to n e = subst (λ p. Stands mem p ys) e Stands-right

pub length-drop : (n : ℕ) (xs : List ℕ) → length (drop n xs) ≡ length xs - n
length-drop zero xs = omega arith
length-drop (suc n) [] = omega arith
length-drop (suc n) (x ∷ xs) = omega (arith, length-drop n xs)

nth-drop : (n : ℕ) (xs : List ℕ) (k : ℕ) → nth (drop n xs) k ≡ nth xs (n + k)
nth-drop zero xs k = let same : k ≡ 0 + k = omega arith in ap (nth xs) same
nth-drop (suc n) [] k = refl
nth-drop (suc n) (x ∷ xs) k =
    let same : suc (n + k) ≡ suc n + k = omega arith in nth-drop n xs k ∙ ap (nth (x ∷ xs)) same

pub Stands-drop :
    (mem : Memory) (at n p : ℕ) (xs : List ℕ)
    → at + n ≡ p
    → Stands mem at xs
    → Stands mem p (drop n xs)
Stands-drop mem at n p xs e h k l =
    let same : p + k ≡ at + (n + k) = omega (arith, e) in
    ap mem same ∙ h (n + k) (omega (arith, l, length-drop n xs)) ∙ sym (nth-drop n xs k)

pub Stands-head : (mem : Memory) (at b : ℕ) (bs : List ℕ) → Stands mem at (b ∷ bs) → mem at ≡ b
Stands-head mem at b bs h = let here : at ≡ at + 0 = omega arith in ap mem here ∙ h 0 (omega arith)

-- Reading some of the bytes again.
pub bytes_from-Stands :
    (n : ℕ) (mem : Memory) (at : ℕ) (bs : List ℕ)
    → Stands mem at bs
    → n ≤ length bs
    → bytes_from n mem at ≡ take n bs
bytes_from-Stands zero mem at bs h l = refl
bytes_from-Stands (suc n) mem at [] h l = absurd (omega arith)
bytes_from-Stands (suc n) mem at (b ∷ bs) h l =
    let rest = Stands-to mem at (b ∷ []) bs h (at + 1) refl in
    rw (Stands-head mem at b bs h, bytes_from-Stands n mem (at + 1) bs rest (omega arith)) refl

pub joined_low :
    (v : ℕ)
    → v % 256 + 256 * (v / 256 % 256) + 65536 * (v / 65536 % 256 + 256 * (v / 16777216 % 256))
      ≡ v % word
joined_low v = omega arith
