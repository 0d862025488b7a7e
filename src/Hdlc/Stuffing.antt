-- ===== src/Hdlc/Stuffing.antt =====
-- One frame on the line: what `ahdlc_decode` makes of the bytes that the stuffing writes.
use ppp.Prelude.{
  ℕ, AllBytes, ◌+◌, ◌<◌, ◌≤◌, ◌≡◌, refl, sym, ap, ◌∙◌, Bool, true, false, some, List, [], ◌∷◌, ◌++◌,
  length, length-append, append-nil, append_assoc, ◌==◌, if◌then◌else◌, bit_xor, arith, Bool-cases,
  inl, inr, every_below, every_below-test, eq_of_==,
}
use ppp.Hdlc.Fcs.{init_fcs, ppp_fcs, fcs_all, fcs_low, fcs_high}
use ppp.Hdlc.Defs.{
  flag, escape, trans, Rx, in_tx_map, in_rx_map, tx_map, stuff, stuff_all, line, note_parity, store,
  take_byte, decode_byte, decode_all,
}

-- The sender's map escapes what the receiver would take for a control or would drop, and nothing
-- whose escaped form is one of these.
pub record Suits (m : List ℕ) (raccm : ℕ) : Type 0 where
  pub flag_in : in_tx_map flag m ≡ true
  pub escape_in : in_tx_map escape m ≡ true
  pub flag_image : in_tx_map 0x5e m ≡ false
  pub escape_image : in_tx_map 0x5d m ≡ false
  pub dropped_in : (c : ℕ) → in_rx_map c raccm ≡ true → in_tx_map c m ≡ true

-- The receiver has `buf` of a frame, with the sum `fcs`, and is as `r` else.
pub record Collects (buf : List ℕ) (fcs : ℕ) (size : ℕ) (r s : Rx) : Type 0 where
  pub rx_buf : s.state.rx_buf ≡ some buf
  pub infcs : s.state.infcs ≡ fcs
  pub iflush : s.state.iflush ≡ false
  pub escaped : s.state.escaped ≡ false
  pub raccm : s.state.raccm ≡ r.state.raccm
  pub rx_buf_size : s.state.rx_buf_size ≡ size
  pub up : s.up ≡ r.up
  pub mru : s.state.mru ≡ r.state.mru

pub decode_all-append :
    (room : Bool) (xs ys : List ℕ) (r : Rx)
    → decode_all room (xs ++ ys) r ≡ decode_all room ys (decode_all room xs r)
unfolding decode_all
decode_all-append room [] ys r = refl
decode_all-append room (x ∷ xs) ys r = decode_all-append room xs ys (decode_byte room x r)

trans_table : every_below (λ x. bit_xor (bit_xor x trans) trans == x) 256 ≡ true
unfolding every_below
trans_table = refl

pub trans_twice : (x : ℕ) → x < 256 → bit_xor (bit_xor x trans) trans ≡ x
trans_twice x h = eq_of_== _ _ (every_below-test _ 256 x h trans_table)

pub trans_flag : (x : ℕ) → x < 256 → bit_xor x trans ≡ flag → x ≡ 0x5e
trans_flag x h e = sym (trans_twice x h) ∙ ap (λ y. bit_xor y trans) e

trans_escape : (x : ℕ) → x < 256 → bit_xor x trans ≡ escape → x ≡ 0x5d
trans_escape x h e = sym (trans_twice x h) ∙ ap (λ y. bit_xor y trans) e

pub plain-ne :
    (m : List ℕ) (b k : ℕ) → in_tx_map b m ≡ false → in_tx_map k m ≡ true → (b == k) ≡ false
plain-ne m b k e h = elim (Bool-cases (b == k)) [
  | inl same ↦ let eq = eq_of_== b k same in cc (ap (λ x. in_tx_map x m) eq)
  | inr other ↦ other
]

-- The escaped form of a byte is neither of the two controls.
pub image-ne-flag :
    (m : List ℕ) (b : ℕ)
    → in_tx_map 0x5e m ≡ false
    → b < 256
    → in_tx_map b m ≡ true
    → (bit_xor b trans == flag) ≡ false
image-ne-flag m b image h e = elim (Bool-cases (bit_xor b trans == flag)) [
  | inl same ↦
      let eq = trans_flag b h (eq_of_== (bit_xor b trans) flag same) in
      cc (ap (λ x. in_tx_map x m) eq, image)
  | inr other ↦ other
]

module _ (m : List ℕ) (raccm : ℕ) (suits : Suits m raccm) where
  image-ne-escape : (b : ℕ) → b < 256 → in_tx_map b m ≡ true → (bit_xor b trans == escape) ≡ false
  image-ne-escape b h e = elim (Bool-cases (bit_xor b trans == escape)) [
    | inl same ↦
        let eq = trans_escape b h (eq_of_== (bit_xor b trans) escape same) in
        cc (ap (λ x. in_tx_map x m) eq, suits.escape_image)
    | inr other ↦ other
  ]

  stuffed_plain :
      (b fcs size : ℕ) (buf : List ℕ) (r s : Rx)
      → r.state.raccm ≡ raccm
      → in_tx_map b m ≡ false
      → length buf < size
      → Collects buf fcs size r s
      → Collects (buf ++ (b ∷ [])) (ppp_fcs fcs b) size r (decode_byte true b s)
  unfolding decode_byte take_byte store note_parity
  stuffed_plain b fcs size buf r s same e room c = ground (
    arith,
    plain-ne m b flag e suits.flag_in,
    plain-ne m b escape e suits.escape_in,
    suits.dropped_in b,
  )

  stuffed_escaped :
      (b fcs size : ℕ) (buf : List ℕ) (r s : Rx)
      → b < 256
      → in_tx_map b m ≡ true
      → length buf < size
      → Collects buf fcs size r s
      → Collects
          (buf ++ (b ∷ []))
          (ppp_fcs fcs b)
          size
          r
          (decode_byte true (bit_xor b trans) (decode_byte true escape s))
  unfolding decode_byte take_byte store note_parity
  stuffed_escaped b fcs size buf r s byte e room c = ground (
    arith,
    image-ne-flag m b suits.flag_image byte e,
    image-ne-escape b byte e,
    trans_twice b byte,
  )

  stuffed :
      (b fcs size : ℕ) (buf : List ℕ) (r s : Rx)
      → r.state.raccm ≡ raccm
      → b < 256
      → length buf < size
      → Collects buf fcs size r s
      → Collects (buf ++ (b ∷ [])) (ppp_fcs fcs b) size r (decode_all true (stuff m b) s)
  unfolding stuff decode_all
  stuffed b fcs size buf r s same byte room c = elim (Bool-cases (in_tx_map b m)) [
    | inl e ↦ rw e (stuffed_escaped b fcs size buf r s byte e room c)
    | inr e ↦ rw e (stuffed_plain b fcs size buf r s same e room c)
  ]

  pub stuffed_all :
      (bs : List ℕ) (fcs size : ℕ) (buf : List ℕ) (r s : Rx)
      → r.state.raccm ≡ raccm
      → AllBytes bs
      → length buf + length bs ≤ size
      → Collects buf fcs size r s
      → Collects (buf ++ bs) (fcs_all fcs bs) size r (decode_all true (stuff_all m bs) s)
  unfolding stuff_all fcs_all
  stuffed_all [] fcs size buf r s same bytes room c = unfold decode_all in rw (append-nil buf) c
  stuffed_all (b ∷ bs) fcs size buf r s same bytes room c =
      let one = stuffed b fcs size buf r s same bytes.0 (omega arith) c in
      let rest =
        stuffed_all bs (ppp_fcs fcs b) size (buf ++ (b ∷ [])) r (decode_all true (stuff m b) s) same
          bytes.1 (omega (arith, length-append buf (b ∷ []))) one in
      rw (decode_all-append true (stuff m b) (stuff_all m bs) s, sym (append_assoc buf (b ∷ []) bs))
        rest

pub stuff_all-append :
    (m xs ys : List ℕ) → stuff_all m (xs ++ ys) ≡ stuff_all m xs ++ stuff_all m ys
unfolding stuff_all
stuff_all-append m [] ys = refl
stuff_all-append m (x ∷ xs) ys = simp (stuff_all-append m xs ys, append_assoc)

-- The bytes for a message, without a flag in front.
unfoldable pub body : List ℕ → List ℕ → List ℕ
body m msg =
    let fcs = fcs_all init_fcs msg in
    stuff_all m (msg ++ (fcs_low fcs ∷ fcs_high fcs ∷ [])) ++ (flag ∷ [])

pub line-body :
    (ff : Bool) (xaccm msg : List ℕ)
    → line ff xaccm msg ≡ (if ff then flag ∷ [] else []) ++ body (tx_map xaccm msg) msg
unfolding line body
line-body ff xaccm msg = unfold stuff_all in simp (stuff_all-append, append_assoc, append-nil)
