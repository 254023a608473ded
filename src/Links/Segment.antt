-- ===== src/Links/Segment.antt =====
-- Which list of addresses a chain of `next` and `prev` fields stands for.
use watchfirewall.Prelude.{
  ℕ, List, [], ◌∷◌, ◌++◌, ◌≡◌, ◌≢◌, ◌⊎◌, inr, refl, sym, Fresh, Distinct, last, update, ==-refl,
  ==-ne, Fresh-last,
}

-- From `p` the `next` fields lead through the addresses to `q`.
abbrev pub Seg : (ℕ → ℕ) → ℕ → List ℕ → ℕ → Type 0
Seg next p [] q = p ≡ q
Seg next p (x ∷ xs) q = (p ≡ x) × (x ≢ 0) × Seg next (next x) xs q

-- `p` is the first of the addresses, or NULL where there is none.
abbrev pub Leads : ℕ → List ℕ → Type 0
Leads p [] = p ≡ 0
Leads p (x ∷ xs) = (p ≡ x) × (x ≢ 0)

pub Seg-Leads : (next : ℕ → ℕ) (p : ℕ) (xs : List ℕ) → Seg next p xs 0 → Leads p xs
Seg-Leads next p [] s = s
Seg-Leads next p (x ∷ xs) s = (s.0, s.1)

-- What each `prev` field holds stands in the relation to the address before it, for the first one to `q`.
abbrev pub Linked : (ℕ → ℕ → Type 0) → (ℕ → ℕ) → ℕ → List ℕ → Type 0
Linked D prev q [] = Unit {0}
Linked D prev q (x ∷ xs) = D (prev x) q × Linked D prev x xs

abbrev pub Exactly : ℕ → ℕ → Type 0
Exactly v q = v ≡ q

abbrev pub Loosely : ℕ → ℕ → Type 0
Loosely v q = (v ≡ 0) ⊎ (v ≡ q)

-- Each `prev` field names the address before it, the first one's names `q`.
abbrev pub Backs : (ℕ → ℕ) → ℕ → List ℕ → Type 0
Backs prev = Linked Exactly prev

module _ (f : ℕ → ℕ) (y v : ℕ) where
  -- A write at an address outside a segment leaves it alone.
  pub Seg-update :
      (p : ℕ) (xs : List ℕ) (q : ℕ) → Fresh y xs → Seg f p xs q → Seg (update f y v) p xs q
  Seg-update p [] q g s = s
  Seg-update p (x ∷ xs) q g s = (s.0, s.1, rw (==-ne y x g.0) (Seg-update (f x) xs q g.1 s.2))

  pub Linked-update :
      (D : ℕ → ℕ → Type 0) (q : ℕ) (xs : List ℕ)
      → Fresh y xs
      → Linked D f q xs
      → Linked D (update f y v) q xs
  Linked-update D q [] g b = tt
  Linked-update D q (x ∷ xs) g b = (rw (==-ne y x g.0) b.0, Linked-update D x xs g.1 b.1)

module _ (next : ℕ → ℕ) where
  pub Seg-append_left :
      (p : ℕ) (xs ys : List ℕ) (q : ℕ)
      → Seg next p (xs ++ ys) q
      → (m : ℕ) × Seg next p xs m × Seg next m ys q
  Seg-append_left p [] ys q s = (p, refl, s)
  Seg-append_left p (x ∷ xs) ys q s =
      let (m, l, r) = Seg-append_left (next x) xs ys q s.2 in (m, (s.0, s.1, l), r)

  pub Seg-append :
      (p : ℕ) (xs ys : List ℕ) (m q : ℕ)
      → Seg next p xs m
      → Seg next m ys q
      → Seg next p (xs ++ ys) q
  Seg-append p [] ys m q s t = rw s t
  Seg-append p (x ∷ xs) ys m q s t = (s.0, s.1, Seg-append (next x) xs ys m q s.2 t)

  -- Redirecting the last address of a segment redirects the segment.
  pub Seg-redirect :
      (p a : ℕ) (xs : List ℕ) (q r : ℕ)
      → Distinct (a ∷ xs)
      → Seg next p (a ∷ xs) q
      → Seg (update next (last a xs) r) p (a ∷ xs) r
  Seg-redirect p a [] q r d s = (s.0, s.1, rw ==-refl refl)
  Seg-redirect p a (b ∷ xs) q r d s = (
    s.0,
    s.1,
    rw (==-ne (last b xs) a (λ e. Fresh-last a b xs d.0 (sym e)))
        (Seg-redirect (next a) b xs q r d.1 s.2),
  )

module _ (D : ℕ → ℕ → Type 0) (f : ℕ → ℕ) where
  pub Linked-append_left : (q : ℕ) (xs ys : List ℕ) → Linked D f q (xs ++ ys) → Linked D f q xs
  Linked-append_left q [] ys b = tt
  Linked-append_left q (x ∷ xs) ys b = (b.0, Linked-append_left x xs ys b.1)

  -- What the first address behind a prefix is linked to: the prefix's last one, or `q`.
  pub Linked-append_right :
      (q : ℕ) (xs ys : List ℕ) → Linked D f q (xs ++ ys) → Linked D f (last q xs) ys
  Linked-append_right q [] ys b = b
  Linked-append_right q (x ∷ xs) ys b = Linked-append_right x xs ys b.1

  pub Linked-append :
      (q : ℕ) (xs ys : List ℕ)
      → Linked D f q xs
      → Linked D f (last q xs) ys
      → Linked D f q (xs ++ ys)
  Linked-append q [] ys b c = c
  Linked-append q (x ∷ xs) ys b c = (b.0, Linked-append x xs ys b.1 c)

pub Linked-Loosely : (f : ℕ → ℕ) (q : ℕ) (xs : List ℕ) → Backs f q xs → Linked Loosely f q xs
Linked-Loosely f q [] b = tt
Linked-Loosely f q (x ∷ xs) b = (inr b.0, Linked-Loosely f x xs b.1)

pub last-ne_null :
    (next : ℕ → ℕ) (p a : ℕ) (xs : List ℕ) (q : ℕ) → Seg next p (a ∷ xs) q → last a xs ≢ 0
last-ne_null next p a [] q s = s.1
last-ne_null next p a (b ∷ xs) q s = last-ne_null next (next a) b xs q s.2
