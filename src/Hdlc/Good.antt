-- ===== src/Hdlc/Good.antt =====
-- The check sequence of a frame with its own two bytes behind it is always the good one.
use ppp.Prelude.{
  ℕ, ◌/◌, ◌<◌, ◌≡◌, ◌&&◌, Bool, true, zero, suc, List, [], ◌∷◌, ◌++◌, refl, ◌∙◌, bit_and, bit_xor,
  ◌==◌, arith, ltb, every_below, every_below-test, eq_of_==, bit_xor_lt,
}
use ppp.Hdlc.Fcs.{fcstab, entry, init_fcs, good_fcs, ppp_fcs, fcs_all, fcs_low, fcs_high}

all_words : List ℕ → Bool
all_words [] = true
all_words (x ∷ xs) = ltb x 65536 && all_words xs

-- The first of the two bytes always selects the last entry, and the second the entry 0x87.
low_table : every_below (λ x. bit_and (bit_xor x (fcs_low x)) 0xff == 0xff) 65536 ≡ true
unfolding every_below fcs_low
low_table = refl

high_table :
    every_below (λ x. bit_and (bit_xor (bit_xor (x / 256) 0x0f78) (fcs_high x)) 0xff == 0x87) 65536
    ≡ true
unfolding every_below fcs_high
high_table = refl

shift_table : every_below (λ y. bit_xor y 0x0f78 / 256 == 0x0f) 256 ≡ true
unfolding every_below
shift_table = refl

ppp_fcs_low : (x : ℕ) → x < 65536 → ppp_fcs x (fcs_low x) ≡ bit_xor (x / 256) 0x0f78
unfolding ppp_fcs
ppp_fcs_low x h = let e = eq_of_== _ _ (every_below-test _ 65536 x h low_table) in rw e refl

-- Of a check sequence of 16 bits, behind which its complement is sent, the good one results.
fcs_good : (x : ℕ) → x < 65536 → fcs_all x (fcs_low x ∷ fcs_high x ∷ []) ≡ good_fcs
unfolding fcs_all
fcs_good x h =
    let index = eq_of_== _ _ (every_below-test _ 65536 x h high_table) in
    let shifted = eq_of_== _ _ (every_below-test _ 256 (x / 256) (omega arith) shift_table) in
    rw (ppp_fcs_low x h) (unfold ppp_fcs in rw (index, shifted) refl)

entry-lt : (xs : List ℕ) (i : ℕ) → all_words xs ≡ true → entry xs i < 65536
unfolding all_words
entry-lt [] i h = omega arith
entry-lt (x ∷ xs) zero h = ground arith
entry-lt (x ∷ xs) (suc i) h = ground (arith, entry-lt xs i)

pub ppp_fcs-lt : (x c : ℕ) → x < 65536 → ppp_fcs x c < 65536
unfolding ppp_fcs
ppp_fcs-lt x c h =
    bit_xor_lt 16 (x / 256) (entry fcstab (bit_and (bit_xor x c) 0xff)) (omega arith)
      (entry-lt fcstab (bit_and (bit_xor x c) 0xff) (unfold all_words in refl))

pub fcs_all-lt : (x : ℕ) (cs : List ℕ) → x < 65536 → fcs_all x cs < 65536
unfolding fcs_all
fcs_all-lt x [] h = h
fcs_all-lt x (c ∷ cs) h = fcs_all-lt (ppp_fcs x c) cs (ppp_fcs-lt x c h)

pub fcs_all-append : (x : ℕ) (cs ds : List ℕ) → fcs_all x (cs ++ ds) ≡ fcs_all (fcs_all x cs) ds
unfolding fcs_all
fcs_all-append x [] ds = refl
fcs_all-append x (c ∷ cs) ds = fcs_all-append (ppp_fcs x c) cs ds

low_bytes : every_below (λ x. ltb (fcs_low x) 256 && ltb (fcs_high x) 256) 65536 ≡ true
unfolding every_below fcs_low fcs_high
low_bytes = refl

pub fcs_bytes : (x : ℕ) → x < 65536 → (fcs_low x < 256) × (fcs_high x < 256)
fcs_bytes x h =
    let e =
      every_below-test (λ x. ltb (fcs_low x) 256 && ltb (fcs_high x) 256) 65536 x h low_bytes in
    ground arith

pub fcs_all_complete :
    (msg : List ℕ)
    → let fcs = fcs_all init_fcs msg in
      fcs_all init_fcs (msg ++ (fcs_low fcs ∷ fcs_high fcs ∷ [])) ≡ good_fcs
fcs_all_complete msg =
    let fcs = fcs_all init_fcs msg in
    fcs_all-append init_fcs msg (fcs_low fcs ∷ fcs_high fcs ∷ [])
    ∙ fcs_good fcs (fcs_all-lt init_fcs msg (omega arith))
