-- ===== src/Wire/Sizes.antt =====
-- How many bytes a message of Shared/messageType.h has.
use watchfirewall.Prelude.{
  ℕ, zero, suc, ◌+◌, ◌-◌, ◌≤◌, ◌≡◌, List, [], ◌∷◌, ◌++◌, length, length-append, map, arith, refl,
}
use watchfirewall.Firewall.Request.{Memory, bytes_from}
use watchfirewall.Messages.{Message}
use watchfirewall.Messages.Layout.{end_of, round_up}
use watchfirewall.Wire.{
  Field, u8, u16, u32, u64, width, field_bytes, laid, fields, tail, written, raw_bytes,
}

pub length-bytes_from : (n : ℕ) (mem : Memory) (at : ℕ) → length (bytes_from n mem at) ≡ n
length-bytes_from zero mem at = refl
length-bytes_from (suc n) mem at = omega (arith, length-bytes_from n mem (at + 1))

length-field_bytes : (f : Field) → length (field_bytes f) ≡ width f
length-field_bytes (u8 v) = refl
length-field_bytes (u16 v) = refl
length-field_bytes (u32 v) = refl
length-field_bytes (u64 v) = refl

le-round_up : (at : ℕ) (f : Field) → at ≤ round_up at (width f)
le-round_up at (u8 v) = omega arith
le-round_up at (u16 v) = omega arith
le-round_up at (u32 v) = omega arith
le-round_up at (u64 v) = omega arith

pub length-laid :
    (found : Memory) (at : ℕ) (fs : List Field)
    → at + length (laid found at fs) ≡ end_of at (map width fs)
length-laid found at [] = omega arith
length-laid found at (f ∷ fs) =
    let to = round_up at (width f) in
    let rest = laid found (to + width f) fs in
    let gap = bytes_from (to - at) found at in
    omega (
      arith,
      length-append gap (field_bytes f ++ rest),
      length-append (field_bytes f) rest,
      length-bytes_from (to - at) found at,
      length-field_bytes f,
      le-round_up at f,
      length-laid found (to + width f) fs,
    )

-- How many bytes Init writes, with those between the fields.
abbrev pub written_size : Message → ℕ
written_size m = end_of 0 (2 ∷ 2 ∷ map width (fields m.payload)) + length (tail m.payload)

length-written : (found : Memory) (m : Message) → length (written found m) ≡ written_size m
length-written found m =
    let header = laid found 0 (u16 m.size ∷ u16 m.type ∷ fields m.payload) in
    omega (
      arith,
      length-append header (tail m.payload),
      length-laid found 0 (u16 m.size ∷ u16 m.type ∷ fields m.payload),
    )

-- A message whose size counts what Init writes has as many bytes as its size says.
pub length-raw_bytes :
    (found : Memory) (m : Message) → written_size m ≤ m.size → length (raw_bytes found m) ≡ m.size
unfolding raw_bytes
length-raw_bytes found m h =
    let front = written found m in
    omega (
      arith,
      length-written found m,
      length-append front (bytes_from (m.size - length front) found (length front)),
      length-bytes_from (m.size - length front) found (length front),
    )
