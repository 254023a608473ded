-- ===== src/Tests/Applications.antt =====
-- The applications of Kext/application.cpp at one process that is known.
use watchfirewall.Prelude.{◌≡◌, refl, [], ◌∷◌, true, false, some, arith, ◌==◌, if◌then◌else◌}
use watchfirewall.Kernel.{plain_atomics}
use watchfirewall.Links.{Ptr, null}
use watchfirewall.Links.Edit.{IsList}
use watchfirewall.Applications.{Applications, get, check_round, check_rounds}
use watchfirewall.Applications.Get.{Got, get-Got}
use watchfirewall.Applications.Routine.{nowhere}
use watchfirewall.Applications.Rounds.{Round, check_round-Round}
use watchfirewall.Applications.Sweep.{Swept, check_rounds-Swept}

abbrev pub one_application : Applications
one_application = record {
  links = record { root = 5; next = λ p. null; prev = λ p. null };
  closing = 0;
  count_processes_to_check = 0;
  application = λ p. record { pid = 100; references = 1 };
  live = λ p. p == 5;
}

pub one_application-IsList : IsList one_application.links (5 ∷ [])
one_application-IsList = record {
  forward = record { chain = (refl, omega arith, refl); distinct = (tt, tt) };
  backs = (refl, tt);
}

get-Got_example :
    (r : Ptr) × (t : Applications) × (get plain_atomics 2 6 101 one_application ≡ some (r, t))
    × Got plain_atomics one_application 101 (5 ∷ []) 6 r t
get-Got_example =
    get-Got plain_atomics 2 6 101 one_application (5 ∷ []) one_application-IsList refl (omega arith)
      (omega arith) (omega arith) refl

-- The process of the application is gone, and no socket holds it.
check_round-Round_example :
    Round plain_atomics
      (λ p. 0)
      (λ pid. false)
      one_application
      (5 ∷ [])
      (check_round plain_atomics (λ pid. false) null one_application)
check_round-Round_example =
    check_round-Round plain_atomics (λ p. 0) (λ pid. false) null one_application (5 ∷ [])
      (record {
        is_list = one_application-IsList;
        place = nowhere refl;
        shares = (
          record { there = omega arith; lives = refl; references = refl; few = omega arith },
          tt,
        );
      })

-- The process of the first application runs, and that of the second is gone.
abbrev two_applications : Applications
two_applications = record {
  links = record {
    root = 5;
    next = λ p. if p == 5 then 6 else null;
    prev = λ p. if p == 6 then 5 else null;
  };
  closing = 0;
  count_processes_to_check = 2;
  application = λ p. record { pid = if p == 5 then 100 else 101; references = 1 };
  live = λ p. true;
}

check_rounds-Swept_example :
    Swept plain_atomics
      (λ p. 0)
      (λ pid. pid == 100)
      6
      two_applications
      (5 ∷ 6 ∷ [])
      (check_rounds plain_atomics (λ pid. pid == 100) 2 null two_applications)
check_rounds-Swept_example =
    check_rounds-Swept plain_atomics (λ p. 0) (λ pid. pid == 100) two_applications (5 ∷ []) 6 []
      (record {
        is_list = record {
          forward = record {
            chain = (refl, omega arith, (refl, omega arith, refl));
            distinct = omega arith;
          };
          backs = (refl, (refl, tt));
        };
        place = nowhere refl;
        shares = (
          record { there = omega arith; lives = refl; references = refl; few = omega arith },
          (record { there = omega arith; lives = refl; references = refl; few = omega arith }, tt),
        );
      })
      (refl, tt) refl
