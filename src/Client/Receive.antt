-- ===== src/Client/Receive.antt =====
-- Client::Send: what a client's queue holds after a message was offered to it.
use watchfirewall.Prelude.{
  List, [], ◌∷◌, ◌++◌, ◌≡◌, ◌≢◌, ◌⊎◌, inl, inr, refl, arith, bit_and, Fresh, Bool-cases, ◌==◌,
  ==-ne,
}
use watchfirewall.Links.{Ptr, null}
use watchfirewall.Queue.{enqueue}
use watchfirewall.Queue.Contents.{IsQueue, items, enqueue-IsQueue, items-enqueue}
use watchfirewall.Messages.{Message}
use watchfirewall.Client.{Client, send}

-- When a client takes a message: it is not closing, has a class of the message, and there is memory.
pub record Takes (c : Client) (node : Ptr) (m : Message) : Type 0 where
  pub not_closing : c.exit_state ≡ 0
  pub has_class : bit_and m.type c.registred_message_clases ≢ 0
  pub has_node : node ≢ null

pub send-Takes :
    (node : Ptr) (m : Message) (c : Client)
    → Takes c node m
    → send node m c ≡ record c { queue = enqueue node m c.queue }
unfolding send
send-Takes node m c t = rw (t.not_closing, ==-ne _ 0 t.has_class, ==-ne node null t.has_node) refl

pub send-refuses :
    (node : Ptr) (m : Message) (c : Client)
    → ((¬ Takes c node m) × (send node m c ≡ c)) ⊎ Takes c node m
unfolding send
send-refuses node m c = elim (Bool-cases (c.exit_state == 0)) [
  | inr e ↦ inl (λ t. absurd (let z = t.not_closing in ground arith), rw e refl)
  | inl e ↦ elim (Bool-cases (bit_and m.type c.registred_message_clases == 0)) [
    | inl f ↦ inl (λ t. t.has_class (ground arith), rw (e, f) refl)
    | inr f ↦ elim (Bool-cases (node == null)) [
      | inl g ↦ inl (λ t. t.has_node (ground arith), rw (e, f, g) refl)
      | inr g ↦
          inr (record {
            not_closing = ground arith;
            has_class = ground arith;
            has_node = ground arith;
          })
    ]
  ]
]

-- A client that takes the message has it last in its queue, behind all that wait, where the
-- new node is none of theirs; any other client is left as it is.
pub send-IsQueue :
    (node : Ptr) (m : Message) (c : Client) (nodes : List Ptr)
    → Fresh node nodes
    → IsQueue c.queue nodes
    → (Takes c node m
        × IsQueue (send node m c).queue (nodes ++ node ∷ [])
        × (items (send node m c).queue (nodes ++ node ∷ []) ≡ items c.queue nodes ++ m ∷ []))
      ⊎ ((¬ Takes c node m) × (send node m c ≡ c))
send-IsQueue node m c nodes f is = elim (send-refuses node m c) [
  | inr t ↦ inl (
    t,
    rw (send-Takes node m c t) (enqueue-IsQueue node m c.queue t.has_node nodes f is),
    rw (send-Takes node m c t) (items-enqueue node m c.queue t.has_node nodes f),
  )
  | inl e ↦ inr e
]
