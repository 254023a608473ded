-- ===== src/Applications/Free.antt =====
-- Applications::Free of Kext/application.cpp: the loop that empties the list.
use watchfirewall.Prelude.{
  ℕ, zero, suc, ◌<◌, ◌≡◌, ◌≢◌, refl, sym, ap, ◌∙◌, List, [], ◌∷◌, true, some, arith, length, ◌==◌,
  ==-ne,
}
use watchfirewall.Kernel.{Atomics}
use watchfirewall.Links.{Ptr, null}
use watchfirewall.Links.Edit.{IsList, unlink-IsList}
use watchfirewall.Applications.{Applications, remove, release_application, free_applications}

module _ (os : Atomics) where
  abbrev step : Ptr → Applications → Applications
  step a s = release_application os a (remove a s)

  step-IsList :
      (x : Ptr) (s : Applications) (xs : List Ptr)
      → IsList s.links (x ∷ xs)
      → IsList (step x s).links xs
  unfolding release_application remove
  step-IsList x s xs is = unlink-IsList x [] xs is

  free_applications-step :
      (fuel : ℕ) (s : Applications)
      → s.root ≢ null
      → free_applications os (suc fuel) s ≡ free_applications os fuel (step s.root s)
  unfolding free_applications
  free_applications-step fuel s n = rw (free_applications, ==-ne s.root null n) refl

  -- The loop on a well linked list, with fuel for more than the applications: it ends, and the list is
  -- empty.
  pub free_applications-root :
      (fuel : ℕ) (s : Applications) (xs : List Ptr)
      → IsList s.links xs
      → length xs < fuel
      → (t : Applications) × (free_applications os fuel s ≡ some t) × (t.root ≡ null)
  unfolding free_applications
  free_applications-root zero s xs is h = absurd (omega arith)
  free_applications-root (suc fuel) s [] is h =
      let stop : (s.root == null) ≡ true = rw is.chain refl in
      (s, rw (free_applications, stop) refl, is.chain)
  free_applications-root (suc fuel) s (x ∷ xs) is h =
      let (t, e, z) =
        free_applications-root fuel (step x s) xs (step-IsList x s xs is) (omega arith) in
      (
        t,
        free_applications-step fuel s (λ r. is.chain.1 (sym is.chain.0 ∙ r))
            ∙ ap (λ r. free_applications os fuel (step r s)) is.chain.0
            ∙ e,
        z,
      )
