-- ===== src/Messages/Fits.antt =====
-- The variable parts of the messages: they fit what was allocated, and are read back.
use watchfirewall.Prelude.{
  ℕ, ◌+◌, ◌-◌, ◌≤◌, ◌<◌, ◌≡◌, sym, subst, ap, List, [], ◌∷◌, ◌++◌, Option, none, some, length,
  length-append, arith,
}
use mathlib.Core.List.{append-nil}
use watchfirewall.Messages.Address.{
  SockAddress, IsAddress, copied, copied_bytes, read_address, get_local, get_remote, take, drop,
  take-append, drop-append, take-length,
}
use watchfirewall.Messages.Layout.{end_of, origin}
use watchfirewall.Messages.Debug.{
  needed_size, address_size, packet_size, accept_fields, accept_needed_size, accept_data,
}

abbrev pub IsGood : Option SockAddress → Type 0
IsGood none = Unit {0}
IsGood (some a) = IsAddress a × (a.len < 256)

pub copied-IsAddress :
    (a : Option SockAddress) → IsGood a → IsAddress (copied a) × ((copied a).len < 256)
unfolding copied
copied-IsAddress none g = omega arith
copied-IsAddress (some a) g = g

pub copied_bytes_lem :
    (a : Option SockAddress)
    → IsGood a
    → copied_bytes a ≡ (copied a).len ∷ (copied a).family ∷ (copied a).tail
unfolding copied_bytes
copied_bytes_lem a g =
    let c = copied a in
    let e : c.len ≡ length (c.len ∷ c.family ∷ c.tail) =
      omega (arith, (copied-IsAddress a g).0.counted) in
    subst (λ n. take n (c.len ∷ c.family ∷ c.tail) ≡ c.len ∷ c.family ∷ c.tail) (sym e)
      (take-length _)

pub length-copied_bytes :
    (a : Option SockAddress) → IsGood a → length (copied_bytes a) ≡ (copied a).len
length-copied_bytes a g =
    rw (copied_bytes_lem a g) (omega (arith, (copied-IsAddress a g).0.counted))

read_address-append :
    (a : SockAddress) (rest : List ℕ)
    → IsAddress a
    → read_address ((a.len ∷ a.family ∷ a.tail) ++ rest) ≡ a
unfolding read_address
read_address-append a rest is =
    let e : a.len - 2 ≡ length a.tail = omega (arith, is.counted) in
    ap (λ t. record a { tail = t }) (rw e (take-append a.tail rest))

drop-copied_bytes :
    (a : Option SockAddress) (rest : List ℕ)
    → IsGood a
    → drop (copied a).len (copied_bytes a ++ rest) ≡ rest
drop-copied_bytes a rest g = rw (← length-copied_bytes a g) (drop-append (copied_bytes a) rest)

-- Accept, with addresses that are as long as their first byte says: both, NULL being an
-- unspecified one, lie within the allocated bytes, and GetLocal and GetRemote find them.
pub accept_round_trip :
    (local remote : Option SockAddress)
    → IsGood local
    → IsGood remote
    → (end_of 0 (accept_fields []) + length (accept_data local remote)
        ≤ accept_needed_size local remote)
      × (get_local (accept_data local remote) ≡ copied local)
      × (get_remote (accept_data local remote) ≡ copied remote)
unfolding accept_data accept_needed_size get_local get_remote
accept_round_trip local remote g h =
    let l = copied-IsAddress local g in
    let r = copied-IsAddress remote h in
    let first : read_address (copied_bytes local ++ copied_bytes remote) ≡ copied local =
      rw (copied_bytes_lem local g)
        (read_address-append (copied local) (copied_bytes remote) l.0) in
    let second : read_address (copied_bytes remote) ≡ copied remote =
      rw (copied_bytes_lem remote h, ← append-nil ((copied remote).tail))
        (read_address-append (copied remote) [] r.0) in
    (
      omega (
        arith,
        length-append (copied_bytes local) (copied_bytes remote),
        length-copied_bytes local g,
        length-copied_bytes remote h,
        l.1,
        r.1,
      ),
      first,
      rw (ap (λ (a : SockAddress). a.len) first, drop-copied_bytes local (copied_bytes remote) g)
          second,
    )

-- A message that ends with one address, of the length that its first byte says, has room for
-- it behind the other fields, whether or not a protocol is one of them.
pub address_fits :
    (sa : Option SockAddress)
    → IsGood sa
    → (end_of 0 (origin []) + (copied sa).len ≤ needed_size address_size sa)
      × (end_of 0 (origin (2 ∷ [])) + (copied sa).len ≤ needed_size packet_size sa)
unfolding copied needed_size
address_fits none g = omega arith
address_fits (some a) g = omega (arith, g.1)
