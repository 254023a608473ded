-- ===== src/Console/Address.antt =====
-- printfSockaddr of ConsoleTest/Console.cpp at an address that SockAddress::Copy of Shared/messageType.h wrote.
use watchfirewall.Prelude.{
  ℕ, suc, ◌+◌, ◌≤◌, ◌≡◌, refl, List, [], ◌∷◌, arith, ◌==◌, if◌then◌else◌, Bool-cases, inl, inr,
}
use watchfirewall.Messages.Address.{SockAddress, IsAddress, take, drop}
use watchfirewall.Firewall.Request.{Memory, read_16, bytes_from}
use watchfirewall.Firewall.Reads.{
  nth_16, Stands, read_16-Stands, bytes_from-Stands, length-drop, Stands-drop,
}
use watchfirewall.Console.Names.{Headers}
use watchfirewall.Console.Handler.{Call, printf, family_call, address_call, printf_sockaddr}

-- What is printed of an address.
abbrev pub report_address : Headers → SockAddress → List Call
report_address h a =
    let port = h.ntohs (nth_16 a.tail 0) in
    if a.family == h.af_unspec
    then printf "undefined  " [] ∷ []
    else family_call h a.family
      ∷ (if a.family == h.af_inet
          then address_call h a.family port (take 4 (drop 2 a.tail)) ∷ []
          else if a.family == h.af_inet6
          then address_call h a.family port (take 16 (drop 6 a.tail)) ∷ []
          else printf "address unsuported  " [] ∷ [])

-- An address of a family whose number is printed has the bytes of the number.
abbrev pub IsComplete : Headers → SockAddress → Type 0
IsComplete h a =
    if a.family == h.af_inet
    then 8 ≤ a.len
    else if a.family == h.af_inet6
    then 24 ≤ a.len
    else Unit {0}

abbrev pub address_bytes : SockAddress → List ℕ
address_bytes a = a.len ∷ a.family ∷ a.tail

module _ (h : Headers) (mem : Memory) (at : ℕ) (a : SockAddress) (is : IsAddress a)
    (s : Stands mem at (address_bytes a)) where
  family_there : mem (at + 1) ≡ a.family
  family_there = s 1 (omega arith)

  port_there : 4 ≤ a.len → read_16 mem (at + 2) ≡ nth_16 a.tail 0
  port_there l = read_16-Stands mem at (address_bytes a) s 2 (omega (arith, is.counted))

  number_there :
      (k n p : ℕ) → at + 2 + k ≡ p → k + n + 2 ≤ a.len → bytes_from n mem p ≡ take n (drop k a.tail)
  number_there k n p e l =
      bytes_from-Stands n mem p (drop k a.tail)
        (Stands-drop mem at (suc (suc k)) p (address_bytes a) (omega (arith, e)) s)
        (omega (arith, l, is.counted, length-drop k a.tail))

  pub printf_sockaddr-address : IsComplete h a → printf_sockaddr h mem at ≡ report_address h a
  unfolding printf_sockaddr
  printf_sockaddr-address c = elim (Bool-cases (a.family == h.af_unspec)) [
    | inl u ↦ rw (family_there, u) refl
    | inr u ↦ elim (Bool-cases (a.family == h.af_inet)) [
      | inl v ↦
          let l : 8 ≤ a.len = rw v at c in
          rw
            (
              family_there,
              u,
              v,
              port_there (omega (arith, l)),
              number_there 2 4 (at + 4) (omega arith) (omega (arith, l)),
            )
            refl
      | inr v ↦ elim (Bool-cases (a.family == h.af_inet6)) [
        | inl w ↦
            let l : 24 ≤ a.len = rw (v, w) at c in
            rw
              (
                family_there,
                u,
                v,
                w,
                port_there (omega (arith, l)),
                number_there 6 16 (at + 8) (omega arith) (omega (arith, l)),
              )
              refl
        | inr w ↦ rw (family_there, u, v, w) refl
      ]
    ]
  ]
