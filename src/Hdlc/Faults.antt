-- ===== src/Hdlc/Faults.antt =====
-- Two inputs that `ahdlc_decode` does not read as they are meant.
use ppp.Prelude.{ℕ, ◌≡◌, true, false, some, List, [], ◌∷◌, ◌==◌, bit_xor, arith}
use ppp.Hdlc.Defs.{
  flag, escape, trans, Rx, in_tx_map, stuff, note_parity, end_frame, store, take_byte, start_frame,
  decode_byte, decode_all,
}
use ppp.Hdlc.RoundTrip.{IsReady}

-- A receiver between frames that gets an escape and a flag, the mark of an aborted frame, takes the
-- first byte of the next frame for an escaped one.
pub escape_survives :
    (b : ℕ) (r : Rx)
    → IsReady r
    → (b == flag) ≡ false
    → (b == escape) ≡ false
    → (decode_all true (escape ∷ flag ∷ b ∷ []) r).state.rx_buf ≡ some (bit_xor b trans ∷ [])
unfolding decode_all decode_byte end_frame note_parity start_frame take_byte store
escape_survives b r h nf ne = ground arith

-- If the sender's map escapes 0x5d, that byte does not arrive: the receiver, with a frame begun, has
-- the same bytes of it after as before, and takes the byte that follows for an escaped one.
escaped_5d_lost :
    (m buf : List ℕ) (r : Rx)
    → in_tx_map 0x5d m ≡ true
    → r.state.rx_buf ≡ some buf
    → r.state.iflush ≡ false
    → let s = decode_all true (stuff m 0x5d) r in
      (s.state.rx_buf ≡ some buf) × (s.state.escaped ≡ true)
unfolding decode_all decode_byte note_parity take_byte stuff
escaped_5d_lost m buf r e h f = rw e (ground arith)
