-- ===== src/Hdlc/Maps.antt =====
-- The maps of the bytes to escape: the one that a stream is opened with, and those set by a request.
use ppp.Prelude.{
  ℕ, zero, suc, ◌<◌, ◌/◌, ap, drop, Bool-cases, inl, inr, ◌*◌, ◌^◌, ◌≡◌, refl, true, false, not,
  some, List, [], ◌∷◌, length, ◌==◌, arith, bit_and, bit_or, every_below, every_below-test, bit_at,
  bit_and-pow, bit_at-or, bit_at-and,
}
use ppp.Hdlc.Defs.{
  Ahdlc, opened, flag, escape, in_tx_map, in_rx_map, tx_map, is_lcp, adjust, overlay, set_xaccm,
}
use ppp.Hdlc.Stuffing.{Suits}

control_table : every_below (λ c. in_tx_map c (0xffffffff ∷ [])) 32 ≡ true
unfolding every_below in_tx_map
control_table = refl

-- A map that starts with ones escapes all control characters.
first_word :
    (c : ℕ) (ws : List ℕ) (raccm : ℕ)
    → in_rx_map c raccm ≡ true
    → in_tx_map c (0xffffffff ∷ ws) ≡ true
unfolding in_rx_map in_tx_map
first_word c ws raccm h =
    let small : c < 32 = ground arith in
    let first : c / 32 ≡ 0 = omega arith in
    let known = every_below-test (λ d. in_tx_map d (0xffffffff ∷ [])) 32 c small control_table in
    rw first (rw first at known)

-- The map of a new stream suits any receiver, for any message.
pub opened-Suits : (raccm : ℕ) (msg : List ℕ) → Suits (tx_map opened.xaccm msg) raccm
unfolding tx_map
opened-Suits raccm msg = elim (Bool-cases (is_lcp msg)) [
  | inl e ↦ rw e opened_map
  | inr e ↦ rw e opened_map
]
  where
    opened_map : Suits opened.xaccm raccm
    opened_map =
        unfold in_tx_map in
        record {
          flag_in = refl;
          escape_in = refl;
          flag_image = refl;
          escape_image = refl;
          dropped_in = λ c. first_word c (drop 1 opened.xaccm) raccm;
        }

length-overlay : (words old : List ℕ) → length (overlay words old) ≡ length old
length-overlay [] old = refl
length-overlay (x ∷ xs) [] = refl
length-overlay (x ∷ xs) (o ∷ os) = omega (arith, length-overlay xs os)

-- A test against one bit, by that bit.
bit_test : (k w : ℕ) → 0 < 2 ^ k → bit_at k w ≡ 1 → not (bit_and w (2 ^ k) == 0) ≡ true
bit_test k w pos h = let e = bit_and-pow k w in ground (arith, ap (λ (t : ℕ). t * 2 ^ k) h)

bit_test_clear : (k w : ℕ) → bit_at k w ≡ 0 → not (bit_and w (2 ^ k) == 0) ≡ false
bit_test_clear k w h = let e = bit_and-pow k w in ground (arith, ap (λ (t : ℕ). t * 2 ^ k) h)

bit_at-lt : (k w : ℕ) → bit_at k w < 2
unfolding bit_at
bit_at-lt zero w = omega arith
bit_at-lt (suc k) w = bit_at-lt k (w / 2)

set_bit : (k w mask : ℕ) → bit_at k mask ≡ 1 → bit_at k (bit_or w mask) ≡ 1
set_bit k w mask h = omega (arith, bit_at-or k w mask, bit_at-lt k w)

clear_bit : (k w mask : ℕ) → bit_at k mask ≡ 0 → bit_at k (bit_and w mask) ≡ 0
clear_bit k w mask h = omega (arith, bit_at-and k w mask)

-- The controls are escaped, and 0x5e, whose escaped form is the flag, is not; eight words.
abbrev pub IsSafe : List ℕ → Type 0
IsSafe m =
    (in_tx_map flag m ≡ true)
    × (in_tx_map escape m ≡ true)
    × (in_tx_map 0x5e m ≡ false)
    × (length m ≡ 8)

adjust-IsSafe : (ws : List ℕ) → length ws ≡ 8 → IsSafe (adjust ws)
unfolding in_tx_map bit_at
adjust-IsSafe [] h = absurd (omega arith)
adjust-IsSafe (_ ∷ []) h = absurd (omega arith)
adjust-IsSafe (_ ∷ _ ∷ []) h = absurd (omega arith)
adjust-IsSafe (_ ∷ _ ∷ _ ∷ []) h = absurd (omega arith)
adjust-IsSafe (w0 ∷ w1 ∷ w2 ∷ w3 ∷ ws) h = (
  bit_test 30 (bit_or w3 0x60000000) (omega arith) (set_bit 30 w3 0x60000000 refl),
  bit_test 29 (bit_or w3 0x60000000) (omega arith) (set_bit 29 w3 0x60000000 refl),
  bit_test_clear 30 (bit_and w2 0xbfffffff) (clear_bit 30 w2 0xbfffffff refl),
  omega arith,
)

-- After a request for the map that is accepted, the map has eight words as before, and escapes 0x7e
-- and 0x7d and not 0x5e, whatever the request says.
set_xaccm-IsSafe :
    (words : List ℕ) (st st' : Ahdlc)
    → length st.xaccm ≡ 8
    → set_xaccm words st ≡ some st'
    → IsSafe st'.xaccm
unfolding set_xaccm
set_xaccm-IsSafe words st st' h e =
    let (f, g, i, l) =
      adjust-IsSafe (overlay words st.xaccm) (omega (arith, length-overlay words st.xaccm)) in
    ground arith

-- The map for an LCP message is as safe as the one that it replaces.
pub tx_map-IsSafe : (xaccm msg : List ℕ) → IsSafe xaccm → IsSafe (tx_map xaccm msg)
unfolding tx_map in_tx_map
tx_map-IsSafe [] msg h = absurd (omega arith)
tx_map-IsSafe (w ∷ ws) msg h = elim (Bool-cases (is_lcp msg)) [
  | inl e ↦ rw e (h.0, h.1, h.2, omega (arith, h.3))
  | inr e ↦ rw e h
]
