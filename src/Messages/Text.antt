-- ===== src/Messages/Text.antt =====
-- CreateText of Kext/messages.cpp, with RawMessageText of Shared/messageType.h. vsnprintf is a parameter: from the size of
-- the buffer to the bytes that it writes and to its result, for the format and the arguments of the call.
use watchfirewall.Prelude.{
  ℕ, zero, suc, ◌∙◌, ◌+◌, ◌-◌, ◌%◌, ◌^◌, ◌≤◌, ◌<◌, ◌≡◌, refl, ◌↔◌, Bool, true, Option, none, some,
  List, [], ◌∷◌, ◌++◌, length, if◌then◌else◌, arith,
}
use watchfirewall.Messages.{Message, Payload, create}
use watchfirewall.Messages.Address.{take}
use watchfirewall.Messages.Layout.{size_of, base}
use watchfirewall.Messages.Types.{message_type_text}

abbrev pub Vsnprintf : Type 0
Vsnprintf = (size : ℕ) → List ℕ × ℕ

-- new(255 + sizeof(RawMessageBase))
abbrev pub text_allocated : ℕ
text_allocated = 255 + size_of (base [])

-- `format_given` is whether format is not NULL, and `fits` is whether `new` succeeds. The size is an UInt16.
unfoldable pub create_text : (format_given fits : Bool) → Vsnprintf → Option Message
create_text format_given fits vsnprintf =
    let (text_buffer, n) = vsnprintf 254 in
    if format_given
    then create fits ((n + size_of (base []) + 1) % 2 ^ 16) message_type_text
        (Payload.text text_buffer)
    else none

-- What vsnprintf does with a text that the format and the arguments come to: it writes what has room before a 0, and
-- tells the length of the whole text.
pub record Formats (vsnprintf : Vsnprintf) (text : List ℕ) : Type 0 where
  pub writes : (size : ℕ) → 0 < size → (vsnprintf size).0 ≡ take (size - 1) text ++ 0 ∷ []
  pub tells : (size : ℕ) → (vsnprintf size).1 ≡ length text

take_all : (n : ℕ) (xs : List ℕ) → length xs ≤ n → take n xs ≡ xs
take_all zero [] h = refl
take_all zero (x ∷ xs) h = absurd (omega arith)
take_all (suc n) [] h = refl
take_all (suc n) (x ∷ xs) h = rw (take_all n xs (omega arith)) refl

text_message : (n : ℕ) (text_buffer : List ℕ) → Message
text_message n text_buffer = record {
  size = n + 5;
  type = message_type_text;
  payload = Payload.text text_buffer;
}

-- The message that is made of a text.
module _ (vsnprintf : Vsnprintf) (text : List ℕ) (f : Formats vsnprintf text)
    (h : length text + 5 < 2 ^ 16) where
  create_text-some :
      create_text true true vsnprintf ≡ some (text_message (length text) (take 253 text ++ 0 ∷ []))
  unfolding create_text text_message
  create_text-some =
      let size : ((vsnprintf 254).1 + 4 + 1) % 2 ^ 16 ≡ length text + 5 =
        omega (arith, f.tells 254, h) in
      rw (size, f.writes 254 (omega arith)) refl

  -- A text message of a text of less than 65531 bytes, for which the size does not wrap, keeps the first 253 bytes of the text
  -- and a 0 behind them. Its size, which tells Send how many bytes to
  -- hand to the socket, lies within what was allocated exactly if the text has at most 254 bytes.
  pub create_text_lem :
      (m : Message) × (create_text true true vsnprintf ≡ some m)
      × (m.payload ≡ Payload.text (take 253 text ++ 0 ∷ []))
      × (m.size ≡ length text + 5)
      × ((m.size ≤ text_allocated) ↔ (length text ≤ 254))
  unfolding text_message
  create_text_lem = (
    text_message (length text) (take 253 text ++ 0 ∷ []),
    create_text-some,
    refl,
    refl,
    (λ l. omega arith, λ l. omega arith),
  )

  -- A text that has room is kept whole.
  pub create_text_whole :
      length text < 254
      → create_text true true vsnprintf
        ≡ some (record {
          size = length text + 5;
          type = message_type_text;
          payload = Payload.text (text ++ 0 ∷ []);
        })
  unfolding text_message
  create_text_whole l = create_text-some ∙ rw (take_all 253 text (omega arith)) refl
