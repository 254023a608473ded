-- ===== src/Cookies/Attached.antt =====
-- SocketCookies::Add, Remove and HaveAttachedSockets (Kext/cookie.h): the list and its count.
use watchfirewall.Prelude.{
  suc, sym, ◌∙◌, ◌%◌, ◌≡◌, ◌≢◌, refl, List, [], ◌∷◌, ◌++◌, false, not, arith, length, length-append,
  Fresh, ◌==◌, ==-ne,
}
use watchfirewall.Kernel.{word}
use watchfirewall.Links.{Ptr, null}
use watchfirewall.Links.Edit.{IsList, unlink-IsList, push_front-IsList}
use watchfirewall.Cookies.{SocketCookies, add, remove, have_attached_sockets}

-- The list of cookies is well linked, and counted in 32 bits.
pub record IsCookies (s : SocketCookies) (xs : List Ptr) : Type 0 where
  pub is_list : IsList s.links xs
  pub counted : s.count_attached_cookies ≡ length xs % word

module _ (c : Ptr) (s : SocketCookies) where
  -- A cookie that is none of the attached ones, its `prev` field NULL, is the first of the list
  -- when it is added, and is counted.
  pub add-IsCookies :
      (xs : List Ptr)
      → c ≢ null
      → Fresh c xs
      → s.prev c ≡ null
      → IsCookies s xs
      → IsCookies (add c s) (c ∷ xs)
  unfolding add
  add-IsCookies xs n f z is = record {
    is_list = push_front-IsList c xs n f z is.is_list;
    counted = let e = is.counted in omega arith;
  }

  -- An attached cookie that is removed is out of the list, whatever its place, and no longer
  -- counted.
  pub remove-IsCookies :
      (front back : List Ptr)
      → IsCookies s (front ++ c ∷ back)
      → IsCookies (remove c s) (front ++ back)
  unfolding remove
  remove-IsCookies front back is = record {
    is_list = unlink-IsList c front back is.is_list;
    counted =
        let e = is.counted in
        omega (arith, length-append front back, length-append front (c ∷ back));
  }

-- There are attached sockets where the list is not empty.
pub have_attached_sockets_lem :
    (s : SocketCookies) (xs : List Ptr)
    → IsCookies s xs
    → have_attached_sockets s ≡ not (length xs == 0)
unfolding have_attached_sockets
have_attached_sockets_lem s [] is = rw is.is_list.chain refl
have_attached_sockets_lem s (x ∷ xs) is =
    let some : (suc (length xs) == 0) ≡ false = ground arith in
    rw (==-ne s.root null (λ e. is.is_list.chain.1 (sym is.is_list.chain.0 ∙ e)), some) refl
