-- ===== src/Connection/Receive.antt =====
-- The connection of a program to the extension (Shared/ServerConnection.cpp): what reaches the program, and when its
-- socket is closed.
use watchfirewall.Prelude.{
  ℕ, zero, suc, ◌+◌, ◌-◌, ◌<◌, ◌≤◌, ◌≡◌, refl, Bool, true, false, ◌&&◌, List, [], ◌∷◌, ◌++◌, some,
  ◌==◌, ltb, if◌then◌else◌, arith, Bool-cases, inl, inr,
}
use watchfirewall.Firewall.Request.{Memory, message_size, message_type}
use watchfirewall.Messages.Types.{message_type_firewall_closing}
use watchfirewall.Connection.{
  invalid, is_positive, Connection, Calls, open_connection, close_connection, receive_loop,
  end_thread,
}

-- From an offset the bytes are messages, one at each of some offsets, up to the end: each has a size.
pub data Packed (mem : Memory) (n : ℕ) : ℕ → List ℕ → Type 0 where
  ended : {at : ℕ} → n ≤ at → Packed mem n at []
  message :
      {at : ℕ} {ats : List ℕ}
      → at < n
      → 0 < message_size mem at
      → Packed mem n (at + message_size mem at) ats
      → Packed mem n at (at ∷ ats)

-- The messages up to the first that announces the end, and whether there is one.
abbrev pub up_to_closing : Memory → List ℕ → List ℕ × Bool
up_to_closing mem [] = ([], false)
up_to_closing mem (at ∷ ats) =
    let (ks, closing) = up_to_closing mem ats in
    if message_type mem at == message_type_firewall_closing
    then (at ∷ [], true)
    else (at ∷ ks, closing)

module _ (mem : Memory) (n : ℕ) where
  receive_loop-stop : (fuel k : ℕ) → n ≤ k → receive_loop mem n (suc fuel) k ≡ some ([], false)
  unfolding receive_loop
  receive_loop-stop fuel k h =
      let past : ltb k n ≡ false = ground arith in rw (receive_loop, past) refl

  receive_loop-next :
      (fuel k : ℕ) (ks : List ℕ) (closing : Bool)
      → k < n
      → receive_loop mem n fuel (k + message_size mem k) ≡ some (ks, closing)
      → receive_loop mem n (suc fuel) k
        ≡ some (
            if message_type mem k == message_type_firewall_closing
            then (k ∷ [], true)
            else (k ∷ ks, closing))
  unfolding receive_loop
  receive_loop-next fuel k ks closing h e =
      let within : ltb k n ≡ true = ground arith in
      elim (Bool-cases (message_type mem k == message_type_firewall_closing)) [
        | inl t ↦ rw (receive_loop, within, t) refl
        | inr t ↦ rw (receive_loop, within, t, e) refl
      ]

  -- The thread's loop over bytes that are a sequence of messages, each of them with a size: receiveDelegate gets each
  -- message once, in order, up to and including the first one that announces the end of the extension, and
  -- the connection is closed exactly if there is one. Fuel for more than the bytes is enough.
  pub receive_loop-Packed :
      (fuel k : ℕ) (ats : List ℕ)
      → Packed mem n k ats
      → n - k < fuel
      → receive_loop mem n fuel k ≡ some (up_to_closing mem ats)
  receive_loop-Packed zero k ats p h = absurd (omega arith)
  receive_loop-Packed (suc fuel) k [] (ended past) h = receive_loop-stop fuel k past
  receive_loop-Packed (suc fuel) k (_ ∷ ats) (message less positive rest) h =
      let (ks, closing) = up_to_closing mem ats in
      receive_loop-next fuel k ks closing less
        (receive_loop-Packed fuel (k + message_size mem k) ats rest (omega arith))

-- Open returns true exactly if there is a socket above 0, its control is found, and connect and pthread_attr_init succeed,
-- whether or not pthread_create does; where it returns false, a descriptor that socket gave is closed or is 0.
pub open_connection_lem :
    (k : Calls) (receive closed : Bool) (c : Connection)
    → let (opened, c') = open_connection k receive closed c in
      (opened ≡ (is_positive k.socket && k.ioctl_works && k.connect && k.attr_init))
      × (if opened
          then (c'.g_socket ≡ k.socket) × (c'.closes ≡ c.closes)
          else (is_positive c'.g_socket ≡ false)
            × (c'.closes ≡ (if is_positive k.socket then c.closes ++ k.socket ∷ [] else c.closes)))
unfolding open_connection
open_connection_lem k receive closed c = elim (Bool-cases (is_positive k.socket)) [
  | inr e ↦ rw e (refl, (e, refl))
  | inl e ↦ elim (Bool-cases k.ioctl_works) [
    | inr f ↦ rw (e, f) (refl, (refl, refl))
    | inl f ↦ elim (Bool-cases (k.connect && k.attr_init)) [
      | inr g ↦ rw (e, f, g) (refl, (refl, refl))
      | inl g ↦ rw (e, f, g) (refl, (refl, refl))
    ]
  ]
]

-- Close on an open connection, and then the end of its thread: the same descriptor is closed twice, since Close does
-- not set it to -1.
pub close_connection-end_thread :
    (closes_well : Bool) (c : Connection)
    → is_positive c.g_socket ≡ true
    → let c' = end_thread (close_connection closes_well c).1 in
      (c'.closes ≡ (c.closes ++ c.g_socket ∷ []) ++ c.g_socket ∷ [])
      × (c'.g_socket ≡ invalid)
      × (c'.receive_thread ≡ false)
unfolding close_connection end_thread
close_connection-end_thread closes_well c e = rw (e, e) (refl, refl, refl)
