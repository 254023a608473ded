-- ===== src/Applications/Get.antt =====
-- Applications::Get (Kext/application.cpp): one object for each process.
use watchfirewall.Prelude.{
  ℕ, zero, suc, ◌+◌, ◌%◌, ◌<◌, ◌≡◌, ◌≢◌, inl, inr, refl, sym, subst, ap, ◌∙◌, List, [], ◌∷◌, ◌++◌,
  true, false, Option, none, some, not, arith, length, All, Fresh, update, ◌==◌, if◌then◌else◌,
  ==-ne, ==-refl, Bool-cases,
}
use watchfirewall.Kernel.{Atomics, word}
use watchfirewall.SimpleBase.{retain, retain_lem}
use watchfirewall.Links.{Ptr, null, push_front}
use watchfirewall.Links.Segment.{Seg}
use watchfirewall.Links.Edit.{IsList, push_front-IsList}
use watchfirewall.Applications.{Applications, retained, add, search, get, get_new}

-- What the search finds: the first application of the process.
pub data Found (s : Applications) (pid : ℕ) (xs : List Ptr) (r : Ptr) : Type 0 where
  missing : r ≡ null → All (λ x. (s.application x).pid ≢ pid) xs → Found s pid xs r
  found :
      (front back : List Ptr)
      → xs ≡ front ++ r ∷ back
      → r ≢ null
      → All (λ x. (s.application x).pid ≢ pid) front
      → (s.application r).pid ≡ pid
      → Found s pid xs r

Found-cons :
    (s : Applications) (pid : ℕ) (x : Ptr) (xs : List Ptr) (r : Ptr)
    → (s.application x).pid ≢ pid
    → Found s pid xs r
    → Found s pid (x ∷ xs) r
Found-cons s pid x xs r n (missing z a) = missing z (n, a)
Found-cons s pid x xs r n (found front back e z a p) =
    found (x ∷ front) back (ap (λ l. x ∷ l) e) z (n, a) p

search-Found :
    (s : Applications) (fuel pid p : ℕ) (xs : List Ptr)
    → Seg s.next p xs null
    → length xs < fuel
    → (r : Ptr) × (search fuel pid p s ≡ some r) × Found s pid xs r
unfolding search
search-Found s zero pid p xs g h = absurd (omega arith)
search-Found s (suc fuel) pid p [] g h =
    let stop : (p == null) ≡ true = rw g refl in (null, rw (search, stop) refl, missing refl tt)
search-Found s (suc fuel) pid p (x ∷ xs) g h =
    let on : (p == null) ≡ false = ==-ne p null (λ e. g.1 (sym g.0 ∙ e)) in
    elim (Bool-cases ((s.application p).pid == pid)) [
      | inl hit ↦ (
        p,
        rw (search, on, hit) refl,
        found [] xs (ap (λ (y : Ptr). y ∷ xs) (sym g.0)) (λ e. g.1 (sym g.0 ∙ e)) tt (ground arith),
      )
      | inr miss ↦
          let (r, e, f) =
            search-Found s fuel pid (s.next p) xs
              (subst (λ y. Seg s.next (s.next y) xs null) (sym g.0) g.2) (omega arith) in
          let other : (s.application p).pid ≢ pid = ground arith in
          (
            r,
            rw (search, on, miss) e,
            Found-cons s pid x xs r (subst (λ y. (s.application y).pid ≢ pid) g.0 other) f,
          )
    ]

-- The object that Get returns, and the applications after it.
pub data Got (os : Atomics) (s : Applications) (pid : ℕ) (xs : List Ptr) (a r : Ptr)
    (t : Applications) : Type 0 where
  known : Found s pid xs r → r ≢ null → t ≡ retained os r s → Got os s pid xs a r t
  created :
      All (λ x. (s.application x).pid ≢ pid) xs
      → r ≡ a
      → IsList t.links (a ∷ xs)
      → t.application a ≡ record { pid = pid; references = 2 }
      → t.count_processes_to_check ≡ (s.count_processes_to_check + 1) % word
      → Got os s pid xs a r t

module _ (os : Atomics) (fuel : ℕ) (a : Ptr) (pid : ℕ) (s : Applications) (xs : List Ptr)
    (is : IsList s.links xs) (opened : s.closing ≡ 0) (h : length xs < fuel) (n : a ≢ null)
    (f : Fresh a xs) (z : s.prev a ≡ null) where
  get_searches :
      (p : Ptr)
      → search fuel pid s.root s ≡ some p
      → get os fuel a pid s
        ≡ some (if p == null then get_new os (add os a pid s) else (p, retained os p s))
  unfolding get
  get_searches p e =
      let run : Option (Ptr × Applications) = elim (search fuel pid s.root s) [
        | none ↦ none
        | some p ↦ some (if p == null then get_new os (add os a pid s) else (p, retained os p s))
      ] in
      let stopped : Option (Ptr × Applications) = some (null, s) in
      subst
        (λ (k : ℕ).
          (if not (k == 0) then stopped else run)
          ≡ some (if p == null then get_new os (add os a pid s) else (p, retained os p s)))
        (sym opened) (rw e refl)

  abbrev added : Applications
  added = record s {
    links = push_front a s.links;
    application = update s.application a (record { pid = pid; references = retain os 0 });
    live = update s.live a true;
    count_processes_to_check = (s.count_processes_to_check + 1) % word;
  }

  add-open : add os a pid s ≡ (a, added)
  unfolding add
  add-open =
      let stopped : Ptr × Applications = (null, s) in
      subst
        (λ (k : ℕ).
          (if not (k == 0) then stopped else if a == null then stopped else (a, added))
          ≡ (a, added))
        (sym opened) (rw (==-ne a null n) refl)

  -- Get, while the list is not closing and an object can be made: the first application of the process, with
  -- one more reference; or, where there is none, a new one in front of the list, which stays well
  -- linked, with one reference for the list and one for the caller. The search ends with fuel for
  -- more than the applications.
  pub get-Got :
      (r : Ptr) × (t : Applications) × (get os fuel a pid s ≡ some (r, t)) × Got os s pid xs a r t
  unfolding retained
  get-Got =
      let twice : retain os (retain os 0) ≡ 2 =
        ap (retain os) (retain_lem os 0 (omega arith)) ∙ retain_lem os 1 (omega arith) in
      let (p, e, got) = search-Found s fuel pid s.root xs is.chain h in
      elim (Bool-cases (p == null)) [
        | inr there ↦
            (p, retained os p s, get_searches p e ∙ rw there refl, known got (ground arith) refl)
        | inl none_there ↦ (
          a,
          retained os a added,
          get_searches p e ∙ rw (none_there, add-open, ==-ne a null n) refl,
          created (absent p got (ground arith)) refl (push_front-IsList a xs n f z is)
              (rw (==-refl a) (ap (λ k. record { pid = pid; references = k }) twice)) refl,
        )
      ]
    where
      absent : (p : Ptr) → Found s pid xs p → p ≡ null → All (λ x. (s.application x).pid ≢ pid) xs
      absent p (missing e all) q = all
      absent p (found front back e n all hit) q = absurd (n q)
