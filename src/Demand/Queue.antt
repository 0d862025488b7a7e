-- ===== src/Demand/Queue.antt =====
-- The bounds of the reader of pppd/demand.c, and the frames that wait.
use ppp.Prelude.{
  ℕ, ◌≤◌, ◌≡◌, refl, Bool, false, List, [], ◌∷◌, ◌++◌, length, length-append, ◌==◌, if◌then◌else◌,
  arith, append-nil, append_assoc, bit_xor,
}
use ppp.Demand.Defs.{
  Protent, Demand, protocol_of, loop_frame, loop_flag, loop_store, loop_char, loop_chars,
  rexmit_loop, rexmit,
}

-- The frame has not run over its buffer.
abbrev pub IsBounded : Demand → Type 0
IsBounded d = length d.frame ≤ d.framemax

module _ (protocols : List Protent) (passes : List ℕ → Bool) (room : Bool) where
  loop_store-IsBounded :
      (c : ℕ) (d : Demand) → IsBounded d → IsBounded (loop_store protocols passes room c d)
  unfolding loop_store
  loop_store-IsBounded c d h = ground (arith, length-append d.frame (c ∷ []))

  loop_char-IsBounded :
      (c : ℕ) (d : Demand) → IsBounded d → IsBounded (loop_char protocols passes room c d).1
  unfolding loop_char loop_flag loop_frame
  loop_char-IsBounded c d h = ground (
    arith,
    loop_store-IsBounded c d h,
    loop_store-IsBounded (bit_xor c 0x20) (record d { escape_flag = false }) h,
  )

  -- Whatever is read, the bytes of a frame never run over the buffer of `framemax` bytes.
  pub loop_chars-IsBounded :
      (cs : List ℕ) (d : Demand) → IsBounded d → IsBounded (loop_chars protocols passes room cs d).1
  unfolding loop_chars
  loop_chars-IsBounded [] d h = h
  loop_chars-IsBounded (c ∷ cs) d h =
      loop_chars-IsBounded cs (loop_char protocols passes room c d).1 (loop_char-IsBounded c d h)

-- The frames of a protocol, and those of the others, in their order.
unfoldable pub matching : ℕ → List (List ℕ) → List (List ℕ)
matching proto [] = []
matching proto (p ∷ ps) =
    let rest = matching proto ps in if protocol_of p == proto then p ∷ rest else rest

unfoldable pub others : ℕ → List (List ℕ) → List (List ℕ)
others proto [] = []
others proto (p ∷ ps) =
    let rest = others proto ps in if protocol_of p == proto then rest else p ∷ rest

-- The calls of `output` in their order.
unfoldable pub in_order : List (List ℕ) → List (List ℕ)
in_order [] = []
in_order (p ∷ ps) = in_order ps ++ (p ∷ [])

rexmit_loop_lem :
    (proto : ℕ) (ps kept sent : List (List ℕ))
    → ((rexmit_loop proto ps kept sent).0 ≡ kept ++ others proto ps)
      × (in_order (rexmit_loop proto ps kept sent).1 ≡ in_order sent ++ matching proto ps)
unfolding rexmit_loop matching others in_order
rexmit_loop_lem proto [] kept sent =
    (rw (append-nil kept) refl, rw (append-nil (in_order sent)) refl)
rexmit_loop_lem proto (p ∷ ps) kept sent = ground (
  arith,
  rexmit_loop_lem proto ps kept (p ∷ sent),
  rexmit_loop_lem proto ps (kept ++ (p ∷ [])) sent,
  append_assoc (in_order sent) (p ∷ []) (matching proto ps),
  append_assoc kept (p ∷ []) (others proto ps),
)

-- When the link for a protocol is up, the waiting frames of that protocol are sent, in the order in
-- which they came, behind what was sent before, and exactly the others go on waiting, in their order.
rexmit_lem :
    (proto : ℕ) (d : Demand)
    → ((rexmit proto d).pend_q ≡ others proto d.pend_q)
      × (in_order (rexmit proto d).sent ≡ in_order d.sent ++ matching proto d.pend_q)
unfolding rexmit
rexmit_lem proto d = rexmit_loop_lem proto d.pend_q [] d.sent
