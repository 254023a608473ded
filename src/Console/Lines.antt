-- ===== src/Console/Lines.antt =====
-- The kinds of lines that ConsoleTest/Console.cpp prints, where the fields of the message stand in the buffer.
use Prim.Native.String.{String}
use watchfirewall.Prelude.{
  ℕ, zero, suc, ◌+◌, ◌/◌, ◌^◌, ◌<◌, ◌≡◌, refl, sym, subst, ap, ◌∙◌, Option, some, none, List, [],
  ◌∷◌, ◌++◌, All, false, ◌==◌, ==-ne, arith, length,
}
use watchfirewall.Kernel.{word}
use watchfirewall.Messages.{Origin}
use watchfirewall.Messages.Address.{SockAddress, copied, copied_bytes}
use watchfirewall.Messages.Debug.{accept_data}
use watchfirewall.Messages.Fits.{IsGood, copied-IsAddress, copied_bytes_lem, length-copied_bytes}
use watchfirewall.Firewall.Request.{Memory, c_string, read_16}
use watchfirewall.Firewall.Reads.{
  Stands, Stands-head, Stands-left, Stands-to, read_32-Stands, joined_32, joined_low,
}
use watchfirewall.Wire.{Field, u16, u32, u64, laid, origin_fields}
use watchfirewall.Console.Names.{Headers}
use watchfirewall.Console.Handler.{
  printf, Argument, number, origin_at, printf_sockaddr, plain_line, address_line, packet_line,
  option_line, accept_line, accept_format,
}
use watchfirewall.Console.Address.{IsComplete, report_address, printf_sockaddr-address}
use watchfirewall.Console.Fields.{
  InOrigin, laid-origin, laid-behind_16, laid-behind_32, read_64-Stands,
}
use watchfirewall.Console.Report.{origin_of, option_of, address_of}

-- An address that Copy wrote.
pub copied_there :
    (h : Headers) (mem : Memory) (at : ℕ) (sa : Option SockAddress)
    → IsGood sa
    → IsComplete h (copied sa)
    → Stands mem at (copied_bytes sa)
    → printf_sockaddr h mem at ≡ report_address h (copied sa)
copied_there h mem at sa g c s =
    printf_sockaddr-address h mem at (copied sa) (copied-IsAddress sa g).0
      (subst (Stands mem at) (copied_bytes_lem sa g) s) c

-- Copy of what Copy wrote.
copied_twice : (sa : Option SockAddress) → copied_bytes (some (copied sa)) ≡ copied_bytes sa
unfolding copied_bytes copied
copied_twice none = refl
copied_twice (some a) = refl

module _ (h : Headers) (mem found : Memory) (at size type : ℕ) (o : Origin) (i : InOrigin o) where
  abbrev Begins : List Field → List ℕ → Type 0
  Begins fs rest = Stands mem at (laid found 0 (u16 size ∷ u16 type ∷ origin_fields o fs) ++ rest)

  pub plain_line-laid :
      (format : String) (fs : List Field) (rest : List ℕ)
      → Begins fs rest
      → plain_line format mem at ≡ printf format (origin_of o []) ∷ []
  plain_line-laid format fs rest s =
      ap (λ l. printf format l ∷ []) (laid-origin mem found at size type o fs rest s [] i)

  -- A field of two bytes behind the origin, and what is printed of it.
  pub origin-laid_16 :
      (v : ℕ) (rest : List ℕ) (f : ℕ → List Argument)
      → v < 65536
      → Begins (u16 v ∷ []) rest
      → origin_at mem at (f (read_16 mem (at + 24))) ≡ origin_of o (f v)
  origin-laid_16 v rest f l s =
      laid-origin mem found at size type o (u16 v ∷ []) rest s (f (read_16 mem (at + 24))) i
      ∙ ap (λ n. origin_of o (f n)) (laid-behind_16 mem found at size type o v rest s l)

  pub option_line-laid :
      (format : String) (name : ℕ) (rest : List ℕ)
      → name < word
      → Begins (u32 name ∷ []) rest
      → option_line format h mem at ≡ printf format (origin_of o (option_of h name)) ∷ []
  option_line-laid format name rest l s =
      let there = laid-behind_32 mem found at size type o name rest s l in
      rw there (
        ap (λ a. printf format a ∷ [])
          (laid-origin mem found at size type o (u32 name ∷ []) rest s (option_of h name) i))

  module _ (sa : Option SockAddress) (g : IsGood sa) (c : IsComplete h (copied sa)) where
    pub address_line-laid :
        (format : String)
        → Begins [] (copied_bytes (some (copied sa)))
        → address_line format h mem at ≡ printf format (origin_of o []) ∷ address_of h sa
    address_line-laid format s =
        let front = laid found 0 (u16 size ∷ u16 type ∷ origin_fields o []) in
        let behind = Stands-to mem at front (copied_bytes (some (copied sa))) s (at + 24) refl in
        let address =
          copied_there h mem (at + 24) sa g c
            (subst (Stands mem (at + 24)) (copied_twice sa) behind) in
        rw
          (
            address,
            laid-origin mem found at size type o [] (copied_bytes (some (copied sa))) s [] i,
          )
          refl

    pub packet_line-laid :
        (format : String) (proto : ℕ)
        → proto < 65536
        → Begins (u16 proto ∷ []) (copied_bytes (some (copied sa)))
        → packet_line format h mem at
          ≡ printf format (origin_of o (number proto ∷ [])) ∷ address_of h sa
    packet_line-laid format proto l s =
        let front = laid found 0 (u16 size ∷ u16 type ∷ origin_fields o (u16 proto ∷ [])) in
        let behind = Stands-to mem at front (copied_bytes (some (copied sa))) s (at + 26) refl in
        let address =
          copied_there h mem (at + 26) sa g c
            (subst (Stands mem (at + 26)) (copied_twice sa) behind) in
        rw
          (address, origin-laid_16 proto (copied_bytes (some (copied sa))) (λ n. number n ∷ []) l s)
          refl

-- The two addresses of an accept message.
module _ (h : Headers) (mem found : Memory) (at size type : ℕ) (o : Origin) (i : InOrigin o)
    (so_listen : ℕ) (l : so_listen < 2 ^ 64) (local remote : Option SockAddress) (g : IsGood local)
    (c : IsComplete h (copied local)) (g' : IsGood remote) (c' : IsComplete h (copied remote)) where
  abbrev accept_front : List ℕ
  accept_front =
      laid found 0 (u16 size ∷ u16 type ∷ u32 o.pid ∷ u32 o.uid ∷ u64 so_listen ∷ u64 o.so ∷ [])

  pub accept_line-laid :
      Stands mem at (accept_front ++ accept_data local remote)
      → accept_line h mem at
        ≡ printf accept_format (origin_of o (number so_listen ∷ []))
          ∷ (report_address h (copied local) ++ (printf "remote: " [] ∷ address_of h remote))
  unfolding accept_data
  accept_line-laid s =
      let bs = accept_front ++ accept_data local remote in
      let both = Stands-to mem at accept_front (accept_data local remote) s (at + 32) refl in
      let first = Stands-left mem (at + 32) (copied_bytes local) (copied_bytes remote) both in
      let long : mem (at + 32) ≡ length (copied_bytes local) =
        Stands-head mem (at + 32) (copied local).len ((copied local).family ∷ (copied local).tail)
          (subst (Stands mem (at + 32)) (copied_bytes_lem local g) first)
        ∙ sym (length-copied_bytes local g) in
      let second =
        Stands-to mem (at + 32) (copied_bytes local) (copied_bytes remote) both
          (at + 32 + mem (at + 32)) (omega (arith, long)) in
      rw
        (
          read_32-Stands mem at bs s 4 (omega arith) ∙ joined_32 o.pid i.pid,
          read_32-Stands mem at bs s 8 (omega arith) ∙ joined_32 o.uid i.uid,
          read_64-Stands mem at bs s 24 o.so (omega arith) (joined_low o.so)
              (joined_32 (o.so / 2 ^ 32) (omega (arith, i.so))) i.so,
          read_64-Stands mem at bs s 16 so_listen (omega arith) (joined_low so_listen)
              (joined_32 (so_listen / 2 ^ 32) (omega (arith, l))) l,
          copied_there h mem (at + 32) local g c first,
          copied_there h mem (at + 32 + mem (at + 32)) remote g' c' second,
        )
        refl

-- The text of a message up to its 0.
pub c_string-Stands :
    (fuel : ℕ) (mem : Memory) (at : ℕ) (s rest : List ℕ)
    → length s < fuel
    → All (λ c. (0 < c) × (c < 256)) s
    → Stands mem at (s ++ 0 ∷ rest)
    → c_string fuel mem at ≡ some s
unfolding c_string
c_string-Stands zero mem at s rest l a t = absurd (omega arith)
c_string-Stands (suc fuel) mem at [] rest l a t =
    let end = Stands-head mem at 0 rest t in rw (c_string, end) refl
c_string-Stands (suc fuel) mem at (c ∷ s) rest l a t =
    let head = Stands-head mem at c (s ++ 0 ∷ rest) t in
    let some_more : (mem at == 0) ≡ false = rw head (==-ne c 0 (omega (arith, a.0.0))) in
    let behind = Stands-to mem at (c ∷ []) (s ++ 0 ∷ rest) t (at + 1) refl in
    let more = c_string-Stands fuel mem (at + 1) s rest (omega (arith, l)) a.1 behind in
    rw (c_string, some_more, more, head) refl
