-- ===== src/Demand/Reads.antt =====
-- `loop_chars` on the bytes that the stuffing of modules/ppp_ahdlc.c writes.
use ppp.Prelude.{
  ℕ, ◌+◌, ◌<◌, ◌≤◌, ◌≡◌, refl, ap, Bool, true, false, ◌||◌, List, [], ◌∷◌, ◌++◌, length,
  length-append, append-nil, append_assoc, take-append, ◌==◌, bit_xor, arith, Bool-cases, inl, inr,
  AllBytes, AllBytes-append,
}
use ppp.Hdlc.Fcs.{init_fcs, good_fcs, ppp_fcs, fcs_all, fcs_low, fcs_high}
use ppp.Hdlc.Good.{fcs_all-lt, fcs_all_complete, fcs_bytes}
use ppp.Hdlc.Defs.{flag, escape, trans, in_tx_map, stuff, stuff_all, line, tx_map}
use ppp.Hdlc.Maps.{IsSafe, tx_map-IsSafe}
use ppp.Hdlc.Stuffing.{plain-ne, image-ne-flag, trans_twice, body, line-body}
use ppp.Demand.Defs.{Protent, Demand, loop_frame, loop_flag, loop_store, loop_char, loop_chars}

module _ (protocols : List Protent) (passes : List ℕ → Bool) (room : Bool) where
  reads : List ℕ → Demand → Bool × Demand
  reads = loop_chars protocols passes room

  loop_chars-append :
      (xs ys : List ℕ) (d : Demand)
      → loop_chars protocols passes room (xs ++ ys) d ≡ (
          let (rv, d') = loop_chars protocols passes room xs d in
          let (rv', d'') = loop_chars protocols passes room ys d' in (rv || rv', d''))
  unfolding loop_chars
  loop_chars-append [] ys d = ground arith
  loop_chars-append (x ∷ xs) ys d =
      let (rv, d') = loop_char protocols passes room x d in
      ground (arith, loop_chars-append xs ys d')

  -- In the middle of a frame, with no escape pending.
  record IsOpen (d : Demand) : Type 0 where
    escape_flag : d.escape_flag ≡ false
    flush_flag : d.flush_flag ≡ false

  read_plain :
      (b : ℕ) (d : Demand)
      → (b == flag) ≡ false
      → (b == escape) ≡ false
      → IsOpen d
      → length d.frame < d.framemax
      → loop_chars protocols passes room (b ∷ []) d
        ≡ (false, record d { frame = d.frame ++ (b ∷ []); fcs = ppp_fcs d.fcs b })
  unfolding loop_chars loop_char loop_store
  read_plain b d nf ne h r = ground arith

  read_escaped :
      (b : ℕ) (d : Demand)
      → b < 256
      → (bit_xor b trans == flag) ≡ false
      → IsOpen d
      → length d.frame < d.framemax
      → loop_chars protocols passes room (escape ∷ bit_xor b trans ∷ []) d
        ≡ (false, record d { frame = d.frame ++ (b ∷ []); fcs = ppp_fcs d.fcs b })
  unfolding loop_chars loop_char loop_store
  read_escaped b d byte nf h r = ground (arith, trans_twice b byte)

  read_stuffed :
      (m : List ℕ) (b : ℕ) (d : Demand)
      → IsSafe m
      → b < 256
      → IsOpen d
      → length d.frame < d.framemax
      → loop_chars protocols passes room (stuff m b) d
        ≡ (false, record d { frame = d.frame ++ (b ∷ []); fcs = ppp_fcs d.fcs b })
  unfolding stuff
  read_stuffed m b d safe byte h r = elim (Bool-cases (in_tx_map b m)) [
    | inl e ↦ rw e (read_escaped b d byte (image-ne-flag m b safe.2 byte e) h r)
    | inr e ↦ rw e (read_plain b d (plain-ne m b flag e safe.0) (plain-ne m b escape e safe.1) h r)
  ]

  read_stuffed_all :
      (m bs : List ℕ) (d : Demand)
      → IsSafe m
      → AllBytes bs
      → IsOpen d
      → length d.frame + length bs ≤ d.framemax
      → loop_chars protocols passes room (stuff_all m bs) d
        ≡ (false, record d { frame = d.frame ++ bs; fcs = fcs_all d.fcs bs })
  unfolding stuff_all fcs_all
  read_stuffed_all m [] d safe bytes h r = unfold loop_chars in rw (append-nil d.frame) refl
  read_stuffed_all m (b ∷ bs) d safe bytes h r =
      let d' = record d { frame = d.frame ++ (b ∷ []); fcs = ppp_fcs d.fcs b } in
      let rest =
        read_stuffed_all m bs d' safe bytes.1
          (record { escape_flag = h.escape_flag; flush_flag = h.flush_flag })
          (omega (arith, length-append d.frame (b ∷ []))) in
      rw
        (
          loop_chars-append (stuff m b) (stuff_all m bs) d,
          read_stuffed m b d safe bytes.0 h (omega arith),
          rest,
          append_assoc d.frame (b ∷ []) bs,
        )
        refl

  -- Between frames.
  pub record IsIdle (d : Demand) : Type 0 where
    pub frame : d.frame ≡ []
    pub escape_flag : d.escape_flag ≡ false
    pub flush_flag : d.flush_flag ≡ false
    pub fcs : d.fcs ≡ init_fcs

  read_end :
      (msg : List ℕ) (lo hi : ℕ) (d e : Demand)
      → IsIdle d
      → 0 < length msg
      → e ≡ record d { frame = msg ++ (lo ∷ hi ∷ []); fcs = good_fcs }
      → loop_chars protocols passes room (flag ∷ []) e ≡ loop_frame protocols passes room msg d
  unfolding loop_chars loop_char loop_flag loop_frame
  read_end msg lo hi d e idle some_bytes same =
      rw same (ground (arith, length-append msg (lo ∷ hi ∷ []), take-append msg (lo ∷ hi ∷ [])))

  read_flag : (d : Demand) → IsIdle d → loop_chars protocols passes room (flag ∷ []) d ≡ (false, d)
  unfolding loop_chars loop_char loop_flag
  read_flag d idle = ground arith

  read_body :
      (m msg : List ℕ) (d : Demand)
      → IsSafe m
      → AllBytes msg
      → 0 < length msg
      → length msg + 2 ≤ d.framemax
      → IsIdle d
      → loop_chars protocols passes room (body m msg) d ≡ loop_frame protocols passes room msg d
  unfolding body
  read_body m msg d safe bytes some_bytes fits idle =
      let fcs = fcs_all init_fcs msg in
      let tail = fcs_low fcs ∷ fcs_high fcs ∷ [] in
      let (lo, hi) = fcs_bytes fcs (fcs_all-lt init_fcs msg (omega arith)) in
      let e = record d { frame = d.frame ++ (msg ++ tail); fcs = fcs_all d.fcs (msg ++ tail) } in
      let taken =
        read_stuffed_all m (msg ++ tail) d safe (AllBytes-append msg tail bytes (lo, (hi, tt)))
          (record { escape_flag = idle.escape_flag; flush_flag = idle.flush_flag })
          (omega (arith, length-append msg tail, ap (λ (xs : List ℕ). length xs) idle.frame)) in
      let good : fcs_all d.fcs (msg ++ tail) ≡ good_fcs = rw idle.fcs (fcs_all_complete msg) in
      let same : e ≡ record d { frame = msg ++ tail; fcs = good_fcs } =
        rw (good, idle.frame) refl in
      rw (loop_chars-append (stuff_all m (msg ++ tail)) (flag ∷ []) d, taken)
        (read_end msg (fcs_low fcs) (fcs_high fcs) d e idle some_bytes same)

  -- With a sender's map that escapes the controls, and not 0x5e, a reader that is between frames
  -- makes of the line's bytes for a message exactly the call of `loop_frame` with this message, if
  -- the message is not empty and fits the frame's room.
  pub loop_chars-line :
      (flag_first : Bool) (xaccm msg : List ℕ) (d : Demand)
      → IsSafe xaccm
      → AllBytes msg
      → 0 < length msg
      → length msg + 2 ≤ d.framemax
      → IsIdle d
      → loop_chars protocols passes room (line flag_first xaccm msg) d
        ≡ loop_frame protocols passes room msg d
  loop_chars-line false xaccm msg d safe bytes some_bytes fits idle =
      rw (line-body false xaccm msg) (
        read_body (tx_map xaccm msg) msg d (tx_map-IsSafe xaccm msg safe) bytes some_bytes fits
          idle)
  loop_chars-line true xaccm msg d safe bytes some_bytes fits idle =
      let rest =
        read_body (tx_map xaccm msg) msg d (tx_map-IsSafe xaccm msg safe) bytes some_bytes fits
          idle in
      rw
        (
          line-body true xaccm msg,
          loop_chars-append (flag ∷ []) (body (tx_map xaccm msg) msg) d,
          read_flag d idle,
          rest,
        )
        refl
