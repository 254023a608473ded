-- ===== src/Tests/Cookies.antt =====
-- The socket cookies of Kext/cookie.h and Kext/cookie.cpp at concrete inputs.
use watchfirewall.Prelude.{◌≡◌, refl, [], ◌∷◌, true, false, some, none, arith}
use watchfirewall.Links.{null}
use watchfirewall.Queue.{Queue, detach}
use watchfirewall.Queue.Contents.{IsQueue}
use watchfirewall.Cookies.{
  SocketCookies, DeferredData, inject_out, add_deferred_data, send_deferred_data,
}
use watchfirewall.Cookies.Attached.{IsCookies}
use watchfirewall.Cookies.Deferred.{kept, add_deferred_data-send_deferred_data}

abbrev pub one_cookie : SocketCookies
one_cookie = record {
  links = record { root = 5; next = λ p. null; prev = λ p. null };
  count_attached_cookies = 1;
}

pub one_cookie-IsCookies : IsCookies one_cookie (5 ∷ [])
one_cookie-IsCookies = record {
  is_list = record {
    forward = record { chain = (refl, omega arith, refl); distinct = (tt, tt) };
    backs = (refl, tt);
  };
  counted = refl;
}

-- One packet waits.
abbrev waiting : Queue DeferredData
waiting = record {
  head = 9;
  last = 9;
  next = λ p. null;
  item = λ p. kept (some 70) none 0 (2 ∷ 0 ∷ []);
}

waiting-IsQueue : IsQueue waiting (9 ∷ [])
waiting-IsQueue = record { chain = (refl, omega arith, refl); distinct = (tt, tt); ends = refl }

add_deferred_data-send_deferred_data_example :
    (q' : Queue DeferredData) × (add_deferred_data 10 true
        (some 71)
        none
        0
        (some (2 ∷ 0 ∷ []))
        waiting
      ≡ some (true, q'))
    × (send_deferred_data (λ d. false) 3 q'
        ≡ some (
          inject_out (kept (some 70) none 0 (2 ∷ 0 ∷ []))
              ∷ inject_out (kept (some 71) none 0 (2 ∷ 0 ∷ []))
              ∷ [],
          detach q',
        ))
add_deferred_data-send_deferred_data_example =
    add_deferred_data-send_deferred_data (λ d. false) 3 10 true (some 71) none 0 (2 ∷ 0 ∷ [])
      waiting (9 ∷ []) waiting-IsQueue (omega arith) (omega arith) (omega arith)
