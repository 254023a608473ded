-- ===== src/Applications/MoveOn.antt =====
-- The first part of a round of CheckIsLiveRoutine (Kext/application.cpp): it goes on to the next application, gives back the
-- reference to the last one, and counts.
use watchfirewall.Prelude.{
  ℕ, ◌^◌, ◌≡◌, ◌≢◌, inl, inr, refl, subst, ltb, ◌&&◌, List, [], arith, All, ◌==◌, Bool-cases,
}
use watchfirewall.Kernel.{Atomics}
use watchfirewall.Links.{Ptr, null}
use watchfirewall.Links.Edit.{IsList}
use watchfirewall.Applications.{Applications, release_application, move_on, count_down}
use watchfirewall.Applications.Routine.{
  Place, first-Place, next-Place, Share, Sound, All-map, release-Share,
}

pid-release_application :
    (os : Atomics) (c x : Ptr) (s : Applications)
    → ((release_application os c s).application x).pid ≡ (s.application x).pid
unfolding release_application
pid-release_application os c x s = elim (Bool-cases (c == x)) [
  | inl e ↦ let same : c ≡ x = ground arith in rw (e, same) refl
  | inr e ↦ rw e refl
]

-- What a round needs of the applications, between moving on and checking.
pub record Between (held : Ptr → ℕ) (s : Applications) (xs : List Ptr) (r : Ptr) : Type 0 where
  pub is_list : IsList s.links xs
  pub place : Place xs r
  pub shares : All (Share held null s) xs

pub count_down-Between :
    (held : Ptr → ℕ) (s : Applications) (xs : List Ptr) (r : Ptr)
    → Between held s xs r
    → Between held (count_down s) xs r
unfolding count_down
count_down-Between held s xs r b =
    elim (Bool-cases
      (ltb 0 s.count_processes_to_check && ltb s.count_processes_to_check (2 ^ 31))) [
        | inr e ↦ rw e b
        | inl e ↦ rw e (record {
          is_list = b.is_list;
          place = b.place;
          shares =
              All-map xs
                (λ x h. record {
                  there = h.there;
                  lives = h.lives;
                  references = h.references;
                  few = h.few;
                })
                b.shares;
        })
      ]

pub pid-count_down :
    (s : Applications) (x : Ptr) → ((count_down s).application x).pid ≡ (s.application x).pid
unfolding count_down
pid-count_down s x =
    elim (Bool-cases
      (ltb 0 s.count_processes_to_check && ltb s.count_processes_to_check (2 ^ 31))) [
        | inr e ↦ rw e refl
        | inl e ↦ rw e refl
      ]

module _ (os : Atomics) where
  pub move_on-Between :
      (held : Ptr → ℕ) (c : Ptr) (s : Applications) (xs : List Ptr)
      → Sound held c s xs
      → Between held (move_on os c s).1 xs (move_on os c s).0
  unfolding move_on release_application
  move_on-Between held c s xs h = elim (Bool-cases (c == null)) [
    | inl e ↦
        let z : c ≡ null = ground arith in
        rw e (record {
          is_list = h.is_list;
          place = first-Place s.next s.root [] xs h.is_list.chain;
          shares = subst (λ p. All (Share held p s) xs) z h.shares;
        })
    | inr e ↦
        let n : c ≢ null = ground arith in
        rw e (record {
          is_list = h.is_list;
          place = next-Place s xs c h.is_list h.place n;
          shares = All-map xs (λ x a. release-Share os held c s x a) h.shares;
        })
  ]

  pub pid-move_on :
      (c : Ptr) (s : Applications) (x : Ptr)
      → ((move_on os c s).1.application x).pid ≡ (s.application x).pid
  unfolding move_on
  pid-move_on c s x = elim (Bool-cases (c == null)) [
    | inl e ↦ rw e refl
    | inr e ↦ rw e (pid-release_application os c x s)
  ]
