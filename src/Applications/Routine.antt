-- ===== src/Applications/Routine.antt =====
-- CheckIsLiveRoutine of Kext/application.cpp: the thread that takes the applications of ended processes out of the list.
use watchfirewall.Prelude.{
  ℕ, suc, ◌+◌, ◌<◌, ◌≡◌, ◌≢◌, inl, inr, refl, sym, subst, ap, ◌∙◌, Bool, true, false, List, [], ◌∷◌,
  ◌++◌, arith, All, Fresh, update, ◌==◌, if◌then◌else◌, ==-ne, Bool-cases,
}
use mathlib.Core.List.{append_assoc}
use watchfirewall.Kernel.{Atomics, word}
use watchfirewall.SimpleBase.{retain, release, retain_lem, release_shared}
use watchfirewall.Links.{Ptr, null}
use watchfirewall.Links.Segment.{Seg, Seg-append_left}
use watchfirewall.Links.Edit.{IsList}
use watchfirewall.Applications.{Applications, retained, release_application}

-- A place in the list, or NULL.
pub data Place (xs : List Ptr) (r : Ptr) : Type 0 where
  nowhere : r ≡ null → Place xs r
  at : (front back : List Ptr) → xs ≡ front ++ r ∷ back → r ≢ null → Place xs r

pub first-Place :
    (next : Ptr → Ptr) (p : Ptr) (front back : List Ptr)
    → Seg next p back null
    → Place (front ++ back) p
first-Place next p front [] s = nowhere s
first-Place next p front (x ∷ xs) s =
    at front xs (ap (λ y. front ++ y ∷ xs) (sym s.0)) (λ e. s.1 (sym s.0 ∙ e))

pub next-Place :
    (s : Applications) (xs : List Ptr) (r : Ptr)
    → IsList s.links xs
    → Place xs r
    → r ≢ null
    → Place xs (s.next r)
next-Place s xs r is (nowhere z) n = absurd (n z)
next-Place s xs r is (at front back e m) n =
    let (p, left, right) =
      Seg-append_left s.next s.root front (r ∷ back) null
        (subst (λ l. Seg s.next s.root l null) e is.chain) in
    subst (λ l. Place l (s.next r)) (append_assoc front (r ∷ []) back ∙ sym e)
      (first-Place s.next (s.next r) (front ++ r ∷ []) back right.2)

-- The reference of the routine.
abbrev pub extra : Ptr → Ptr → ℕ
extra checked x = if checked == x then 1 else 0

-- An application of the list is there, and its references are the list's, those that `held` counts for the
-- sockets, and the routine's.
pub record Share (held : Ptr → ℕ) (checked : Ptr) (s : Applications) (x : Ptr) : Type 0 where
  pub there : x ≢ null
  pub lives : s.live x ≡ true
  pub references : (s.application x).references ≡ suc (held x + extra checked x)
  pub few : held x + 3 < word

pub record Sound (held : Ptr → ℕ) (checked : Ptr) (s : Applications) (xs : List Ptr) : Type 0 where
  pub is_list : IsList s.links xs
  pub place : Place xs checked
  pub shares : All (Share held checked s) xs

pub All-map : {P Q : Ptr → Type 0} (xs : List Ptr) → ((x : Ptr) → P x → Q x) → All P xs → All Q xs
All-map [] k a = tt
All-map (x ∷ xs) k a = (k x a.0, All-map xs k a.1)

pub All-Fresh :
    {P Q : Ptr → Type 0} (r : Ptr) (xs : List Ptr)
    → ((x : Ptr) → r ≢ x → P x → Q x)
    → Fresh r xs
    → All P xs
    → All Q xs
All-Fresh r [] k f a = tt
All-Fresh r (x ∷ xs) k f a = (k x f.0 a.0, All-Fresh r xs k f.1 a.1)

pub All-drop :
    (P : Ptr → Type 0) (front : List Ptr) (r : Ptr) (back : List Ptr)
    → All P (front ++ r ∷ back)
    → P r × All P (front ++ back)
All-drop P [] r back a = (a.0, a.1)
All-drop P (x ∷ front) r back a = let (p, rest) = All-drop P front r back a.1 in (p, (a.0, rest))

live_elsewhere :
    (b : Bool) (live : Ptr → Bool) (c x : Ptr)
    → c ≢ x
    → (if b then update live c false else live) x ≡ live x
live_elsewhere true live c x n = rw (==-ne c x n) refl
live_elsewhere false live c x n = refl

module _ (os : Atomics) (held : Ptr → ℕ) where
  -- Elsewhere than at the released application.
  pub Share-elsewhere :
      (c : Ptr) (s : Applications) (x : Ptr)
      → c ≢ x
      → Share held null s x
      → Share held null (release_application os c s) x
  unfolding release_application
  Share-elsewhere c s x n h = record {
    there = h.there;
    lives = live_elsewhere (release os (s.application c).references).1 s.live c x n ∙ h.lives;
    references = rw (==-ne c x n) h.references;
    few = h.few;
  }

  pub Share-null :
      (c : Ptr) (s : Applications) (x : Ptr) → c ≢ x → Share held c s x → Share held null s x
  Share-null c s x n h = record {
    there = h.there;
    lives = h.lives;
    references =
        let none_extra : extra null x ≡ extra c x =
          rw (==-ne c x n, ==-ne null x (λ e. h.there (sym e))) refl in
        rw none_extra h.references;
    few = h.few;
  }

  -- The routine gives back its reference.
  pub release-Share :
      (c : Ptr) (s : Applications) (x : Ptr)
      → Share held c s x
      → Share held null (release_application os c s) x
  unfolding release_application
  release-Share c s x h = elim (Bool-cases (c == x)) [
    | inr e ↦ let n : c ≢ x = ground arith in Share-elsewhere c s x n (Share-null c s x n h)
    | inl e ↦
        let same : c ≡ x = ground arith in
        let two : (s.application c).references ≡ held x + 2 =
          ap (λ y. (s.application y).references) same ∙ h.references ∙ rw e (omega arith) in
        let left : release os (s.application c).references ≡ (held x + 1, false) =
          ap (release os) two
          ∙ release_shared os (held x + 2) (omega arith) (omega (arith, h.few))
          ∙ ap (λ n. (n, false)) (omega arith) in
        record {
          there = h.there;
          lives = rw left h.lives;
          references = rw (e, left, ==-ne null x (λ z. h.there (sym z))) (omega arith);
          few = h.few;
        }
  ]

  -- The routine takes a reference.
  pub retain-Share :
      (c : Ptr) (s : Applications) (x : Ptr)
      → Share held null s x
      → Share held c (retained os c s) x
  unfolding retained
  retain-Share c s x h =
      let one : (s.application x).references ≡ held x + 1 =
        h.references ∙ rw (==-ne null x (λ z. h.there (sym z))) (omega arith) in
      elim (Bool-cases (c == x)) [
        | inr e ↦ record {
          there = h.there;
          lives = h.lives;
          references = rw e (omega (arith, one));
          few = h.few;
        }
        | inl e ↦
            let same : c ≡ x = ground arith in
            let more : retain os (s.application c).references ≡ held x + 2 =
              ap (λ y. retain os (s.application y).references) same
              ∙ ap (retain os) one
              ∙ retain_lem os (held x + 1) (omega (arith, h.few))
              ∙ omega arith in
            record {
              there = h.there;
              lives = h.lives;
              references = rw (e, more) (omega arith);
              few = h.few;
            }
      ]
