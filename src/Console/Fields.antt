-- ===== src/Console/Fields.antt =====
-- What ConsoleTest/Console.cpp reads of the fields that the Init functions of Shared/messageType.h wrote.
use watchfirewall.Prelude.{
  ℕ, ◌+◌, ◌*◌, ◌/◌, ◌%◌, ◌^◌, ◌<◌, ◌≡◌, refl, ◌∙◌, List, [], ◌∷◌, ◌++◌, arith, length,
}
use watchfirewall.Kernel.{word}
use watchfirewall.Messages.{Origin}
use watchfirewall.Firewall.Request.{Memory, read_16, read_32, message_size, message_type}
use watchfirewall.Firewall.Reads.{
  nth_16, Stands, read_16-Stands, read_32-Stands, message_size-Stands, message_type-Stands,
  joined_16, joined_32, joined_low,
}
use watchfirewall.Wire.{Field, u16, u32, laid, origin_fields}
use watchfirewall.Console.Handler.{Argument, read_64, origin_arguments, origin_at}

-- The numbers of an origin have the widths of their fields.
pub record InOrigin (o : Origin) : Type 0 where
  pub pid : o.pid < word
  pub uid : o.uid < word
  pub so : o.so < 2 ^ 64

joined_64 : (v : ℕ) → v < 2 ^ 64 → v % word + 2 ^ 32 * (v / 2 ^ 32) ≡ v
joined_64 v h = omega arith

module _ (mem : Memory) (at : ℕ) (bs : List ℕ) (h : Stands mem at bs) where
  pub read_64-Stands :
      (k v : ℕ)
      → k + 7 < length bs
      → nth_16 bs k + 65536 * nth_16 bs (k + 2) ≡ v % word
      → nth_16 bs (k + 4) + 65536 * nth_16 bs (k + 4 + 2) ≡ v / 2 ^ 32
      → v < 2 ^ 64
      → read_64 mem (at + k) ≡ v
  read_64-Stands k v l low high small =
      let next : at + k + 4 ≡ at + (k + 4) = omega arith in
      rw
        (
          read_32-Stands mem at bs h k (omega arith),
          next,
          read_32-Stands mem at bs h (k + 4) (omega arith),
          low,
          high,
        )
        (joined_64 v small)

-- A message with a field for its size and one for its type, whatever follows.
module _ (mem found : Memory) (at size type : ℕ) (fs : List Field) (rest : List ℕ)
    (h : Stands mem at (laid found 0 (u16 size ∷ u16 type ∷ fs) ++ rest)) where
  pub laid-size : size < 65536 → message_size mem at ≡ size
  laid-size l =
      message_size-Stands mem at (laid found 0 (u16 size ∷ u16 type ∷ fs) ++ rest) h (omega arith)
      ∙ joined_16 size l

  pub laid-type : type < 65536 → message_type mem at ≡ type
  laid-type l =
      message_type-Stands mem at (laid found 0 (u16 size ∷ u16 type ∷ fs) ++ rest) h (omega arith)
      ∙ joined_16 type l

-- A message of a socket of a process.
module _ (mem found : Memory) (at size type : ℕ) (o : Origin) (fs : List Field) (rest : List ℕ)
    (h : Stands mem at (laid found 0 (u16 size ∷ u16 type ∷ origin_fields o fs) ++ rest)) where
  abbrev all_bytes : List ℕ
  all_bytes = laid found 0 (u16 size ∷ u16 type ∷ origin_fields o fs) ++ rest

  pub laid-origin :
      (arguments : List Argument)
      → InOrigin o
      → origin_at mem at arguments ≡ origin_arguments o.pid o.uid o.so arguments
  laid-origin arguments i =
      let so =
        read_64-Stands mem at all_bytes h 16 o.so (omega arith) (joined_low o.so)
          (joined_32 (o.so / 2 ^ 32) (omega (arith, i.so))) i.so in
      rw
        (
          read_32-Stands mem at all_bytes h 4 (omega arith) ∙ joined_32 o.pid i.pid,
          read_32-Stands mem at all_bytes h 8 (omega arith) ∙ joined_32 o.uid i.uid,
          so,
        )
        refl

-- A field behind the origin.
module _ (mem found : Memory) (at size type : ℕ) (o : Origin) (v : ℕ) (rest : List ℕ) where
  pub laid-behind_16 :
      Stands mem at (laid found 0 (u16 size ∷ u16 type ∷ origin_fields o (u16 v ∷ [])) ++ rest)
      → v < 65536
      → read_16 mem (at + 24) ≡ v
  laid-behind_16 h l =
      read_16-Stands mem at
        (laid found 0 (u16 size ∷ u16 type ∷ origin_fields o (u16 v ∷ [])) ++ rest) h 24
        (omega arith)
      ∙ joined_16 v l

  pub laid-behind_32 :
      Stands mem at (laid found 0 (u16 size ∷ u16 type ∷ origin_fields o (u32 v ∷ [])) ++ rest)
      → v < word
      → read_32 mem (at + 24) ≡ v
  laid-behind_32 h l =
      read_32-Stands mem at
        (laid found 0 (u16 size ∷ u16 type ∷ origin_fields o (u32 v ∷ [])) ++ rest) h 24
        (omega arith)
      ∙ joined_32 v l
