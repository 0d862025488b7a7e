-- ===== src/Hdlc/RoundTrip.antt =====
-- What `ahdlc_encode` writes, as `ahdlc_decode` reads it.
use ppp.Prelude.{
  ℕ, AllBytes, AllBytes-append, ◌+◌, ◌<◌, ◌≤◌, ◌≡◌, refl, ap, ◌∙◌, Bool, true, false, none, some,
  List, [], ◌∷◌, ◌++◌, length, length-append, take-append, ltb, ◌==◌, if◌then◌else◌, arith,
  Bool-cases, inl, inr,
}
use ppp.Hdlc.Fcs.{init_fcs, good_fcs, fcs_all, fcs_low, fcs_high}
use ppp.Hdlc.Good.{fcs_bytes, fcs_all_complete, fcs_all-lt}
use ppp.Hdlc.Defs.{
  flag, escape, default_mru, Ahdlc, Rx, frame, written, encode, decode, in_tx_map, tx_map, stuff,
  stuff_all, line, note_parity, strip_fcs, end_frame, start_frame, decode_byte, decode_all,
}
use ppp.Hdlc.Stuffing.{Suits, Collects, decode_all-append, plain-ne, stuffed_all, body, line-body}

-- Between two frames: no buffer, and not discarding.
pub record IsReady (r : Rx) : Type 0 where
  pub rx_buf : r.state.rx_buf ≡ none
  pub iflush : r.state.iflush ≡ false

-- The room for a frame and its check sequence.
abbrev pub room_for : ℕ → ℕ
room_for mru = (if ltb mru default_mru then default_mru else mru) + 32

-- With an empty buffer, which the first byte of a frame gets.
started : Rx → Rx
started r =
    let st = r.state in
    record r {
      state = record st {
        rx_buf_size = room_for st.mru;
        rx_buf = some [];
        iflush = false;
        escaped = false;
        infcs = init_fcs;
      };
    }

started-Collects : (r : Rx) → Collects [] init_fcs (room_for r.state.mru) r (started r)
unfolding started
started-Collects r = ground arith

decode_byte-started :
    (c : ℕ) (r : Rx)
    → (c == flag) ≡ false
    → IsReady r
    → decode_byte true c r ≡ decode_byte true c (started r)
unfolding decode_byte started note_parity start_frame
decode_byte-started c r e h = ground arith

end-Collects :
    (b : ℕ) (bs : List ℕ) (fcs size : ℕ) (r s : Rx)
    → fcs ≡ good_fcs
    → Collects (b ∷ bs) fcs size r s
    → ((decode_all true (flag ∷ []) s).up ≡ frame (strip_fcs (b ∷ bs)) ∷ r.up)
      × IsReady (decode_all true (flag ∷ []) s)
unfolding decode_all decode_byte end_frame note_parity
end-Collects b bs fcs size r s good c = ground arith

module _ (m : List ℕ) (r : Rx) (suits : Suits m r.state.raccm) where
  -- A frame that is not empty, behind which its flag comes, starts the buffer.
  stuffed_started :
      (b : ℕ) (bs rest : List ℕ)
      → b < 256
      → IsReady r
      → decode_all true (stuff_all m (b ∷ bs) ++ rest) r
        ≡ decode_all true (stuff_all m (b ∷ bs) ++ rest) (started r)
  unfolding stuff_all decode_all stuff
  stuffed_started b bs rest byte h = elim (Bool-cases (in_tx_map b m)) [
    | inl e ↦ rw (e, decode_byte-started escape r refl h) refl
    | inr e ↦ rw (e, decode_byte-started b r (plain-ne m b flag e suits.flag_in) h) refl
  ]

  decode_frame :
      (b : ℕ) (bs : List ℕ)
      → IsReady r
      → AllBytes (b ∷ bs)
      → length (b ∷ bs) ≤ room_for r.state.mru
      → fcs_all init_fcs (b ∷ bs) ≡ good_fcs
      → let s = decode_all true (stuff_all m (b ∷ bs) ++ (flag ∷ [])) r in
        (s.up ≡ frame (strip_fcs (b ∷ bs)) ∷ r.up) × IsReady s
  decode_frame b bs h bytes fits good =
      let c =
        stuffed_all m r.state.raccm suits (b ∷ bs) init_fcs (room_for r.state.mru) [] r (started r)
          refl bytes (omega arith) (started-Collects r) in
      rw
        (
          stuffed_started b bs (flag ∷ []) bytes.0 h,
          decode_all-append true (stuff_all m (b ∷ bs)) (flag ∷ []) (started r),
        )
        (end-Collects b bs (fcs_all init_fcs (b ∷ bs)) (room_for r.state.mru) r
          (decode_all true (stuff_all m (b ∷ bs)) (started r)) good c)

strip_fcs-append : (msg : List ℕ) (lo hi : ℕ) → strip_fcs (msg ++ (lo ∷ hi ∷ [])) ≡ msg
unfolding strip_fcs
strip_fcs-append msg lo hi =
    ground (arith, length-append msg (lo ∷ hi ∷ []), take-append msg (lo ∷ hi ∷ []))

-- A flag between frames changes nothing that matters.
decode-flag :
    (r : Rx)
    → IsReady r
    → IsReady (decode_byte true flag r)
      × ((decode_byte true flag r).up ≡ r.up)
      × ((decode_byte true flag r).state.raccm ≡ r.state.raccm)
      × ((decode_byte true flag r).state.mru ≡ r.state.mru)
unfolding decode_byte end_frame note_parity
decode-flag r h = ground arith

decode-body :
    (m : List ℕ) (msg : List ℕ) (r : Rx)
    → Suits m r.state.raccm
    → IsReady r
    → AllBytes msg
    → 0 < length msg
    → length msg + 2 ≤ room_for r.state.mru
    → ((decode_all true (body m msg) r).up ≡ frame msg ∷ r.up)
      × IsReady (decode_all true (body m msg) r)
unfolding body
decode-body m [] r suits h bytes some_bytes fits = absurd (omega arith)
decode-body m (b ∷ bs) r suits h bytes some_bytes fits =
    let fcs = fcs_all init_fcs (b ∷ bs) in
    let tail = fcs_low fcs ∷ fcs_high fcs ∷ [] in
    let (lo, hi) = fcs_bytes fcs (fcs_all-lt init_fcs (b ∷ bs) (omega arith)) in
    let (got, ready) =
      decode_frame m r suits b (bs ++ tail) h (AllBytes-append (b ∷ bs) tail bytes (lo, (hi, tt)))
        (omega (arith, length-append bs tail)) (fcs_all_complete (b ∷ bs)) in
    (got ∙ ap (λ x. frame x ∷ r.up) (strip_fcs-append (b ∷ bs) (fcs_low fcs) (fcs_high fcs)), ready)

decode-line :
    (flag_first : Bool) (xaccm msg : List ℕ) (r : Rx)
    → Suits (tx_map xaccm msg) r.state.raccm
    → IsReady r
    → AllBytes msg
    → 0 < length msg
    → length msg + 2 ≤ room_for r.state.mru
    → ((decode_all true (line flag_first xaccm msg) r).up ≡ frame msg ∷ r.up)
      × IsReady (decode_all true (line flag_first xaccm msg) r)
decode-line false xaccm msg r suits h bytes some_bytes fits =
    rw (line-body false xaccm msg)
      (decode-body (tx_map xaccm msg) msg r suits h bytes some_bytes fits)
decode-line true xaccm msg r suits h bytes some_bytes fits =
    let m = tx_map xaccm msg in
    let (ready, same_up, same_map, same_mru) = decode-flag r h in
    let r' = decode_byte true flag r in
    let suits' : Suits m r'.state.raccm = rw same_map suits in
    let fits' : length msg + 2 ≤ room_for r'.state.mru = rw same_mru fits in
    let (got, done) = decode-body m msg r' suits' ready bytes some_bytes fits' in
    rw (line-body true xaccm msg)
      (unfold decode_all in (got ∙ ap (λ u. frame msg ∷ u) same_up, done))

-- Between a sender and a receiver whose maps suit each other, a message of at least four bytes that
-- fits the receiver's buffer is written on the line, with a flag in front or not, and a receiver
-- that is between frames takes exactly this message out of it and is between frames again.
pub decode-encode :
    (flag_first : Bool) (a : Ahdlc) (msg : List ℕ) (r : Rx)
    → Suits (tx_map a.xaccm msg) r.state.raccm
    → IsReady r
    → AllBytes msg
    → 4 ≤ length msg
    → length msg + 2 ≤ room_for r.state.mru
    → (out : List ℕ) × ((encode true flag_first a msg).1 ≡ written out)
      × ((decode true out r).up ≡ frame msg ∷ r.up)
      × IsReady (decode true out r)
unfolding encode decode
decode-encode flag_first a msg r suits h bytes long fits =
    let st = r.state in
    let s = st.stats in
    let out = line flag_first a.xaccm msg in
    let r' = record r {
      state = record st { stats = record s { ibytes = s.ibytes + length out } };
    } in
    let ready : IsReady r' = record { rx_buf = h.rx_buf; iflush = h.iflush } in
    let (got, done) = decode-line flag_first a.xaccm msg r' suits ready bytes (omega arith) fits in
    (out, ground arith, got, done)
