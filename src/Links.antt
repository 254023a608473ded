-- ===== src/Links.antt =====
-- The doubly linked lists of the extension: the chain of rules (Kext/rule.h), of applications
-- (Kext/application.h) and of socket cookies (Kext/cookie.h) are linked and unlinked by the same
-- statements. An object's `next` and `prev` fields are functions of its address, and 0 is NULL.
pub mod Segment
pub mod Edit
pub mod Insert
pub mod Loose
use watchfirewall.Prelude.{ℕ, ◌==◌, if◌then◌else◌, update}

abbrev pub Ptr : Type 0
Ptr = ℕ

abbrev pub null : Ptr
null = 0

pub record Links : Type 0 where
  pub root : Ptr
  pub next : Ptr → Ptr
  pub prev : Ptr → Ptr

-- if(x->prev) x->prev->next = x->next; else root = x->next;
unfoldable pub bypass_next : Ptr → Links → Links
bypass_next x l =
    if l.prev x == null
    then record l { root = l.next x }
    else record l { next = update l.next (l.prev x) (l.next x) }

-- if(x->next) x->next->prev = x->prev;
unfoldable pub bypass_prev : Ptr → Links → Links
bypass_prev x l =
    if l.next x == null then l else record l { prev = update l.prev (l.next x) (l.prev x) }

unfoldable pub unlink : Ptr → Links → Links
unfolding bypass_next bypass_prev
unlink x l = bypass_prev x (bypass_next x l)

-- x->next = root; root = x; if(x->next) x->next->prev = x;
unfoldable pub push_front : Ptr → Links → Links
push_front x l =
    let l' : Links = record l { root = x; next = update l.next x l.root } in
    if l'.next x == null then l' else record l' { prev = update l'.prev (l'.next x) x }

-- What Rules::AddRule does to put `x` before `c`:
-- x->next = c; x->prev = c->prev; c->prev = x; if(x->prev) x->prev->next = x; else root = x;
unfoldable pub insert_before : Ptr → Ptr → Links → Links
insert_before x c l =
    let l' : Links = record l {
      next = update l.next x c;
      prev = update (update l.prev x (l.prev c)) c x;
    } in
    if l'.prev x == null
    then record l' { root = x }
    else record l' { next = update l'.next (l'.prev x) x }

-- And behind the last element, `last`: if(last) last->next = x; else root = x;
unfoldable pub append_after : Ptr → Ptr → Links → Links
append_after last x l =
    if last == null then record l { root = x } else record l { next = update l.next last x }
