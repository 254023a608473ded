-- ===== src/Messages/Layout.antt =====
-- The sizes of the raw messages of Shared/messageType.h: each field, of 1, 2, 4 or 8 bytes, is
-- aligned to its own size, as on x86_64, and the whole to the largest of them.
use watchfirewall.Prelude.{ℕ, ◌+◌, ◌-◌, ◌*◌, ◌/◌, List, [], ◌∷◌}
use Prim.Native.Nat.{max}

abbrev pub round_up : ℕ → ℕ → ℕ
round_up n a = (n + a - 1) / a * a

-- The end of the fields that are laid out from an offset.
abbrev pub end_of : ℕ → List ℕ → ℕ
end_of at [] = at
end_of at (f ∷ fs) = end_of (round_up at f + f) fs

abbrev widest : List ℕ → ℕ
widest [] = 1
widest (f ∷ fs) = max f (widest fs)

abbrev pub size_of : List ℕ → ℕ
size_of fs = round_up (end_of 0 fs) (widest fs)

-- RawMessageBase: size and type.
abbrev pub base : List ℕ → List ℕ
base fs = 2 ∷ 2 ∷ fs

-- pid, uid and so.
abbrev pub origin : List ℕ → List ℕ
origin fs = base (4 ∷ 4 ∷ 8 ∷ fs)

-- SockAddress: len and family.
abbrev pub size_of_sock_address : ℕ
size_of_sock_address = 2
