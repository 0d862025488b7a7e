-- ===== src/Lcp/Agreement.antt =====
-- Length, request and Ack agree on the options of pppd/lcp.c.
use ppp.Prelude.{
  ℕ, AllBytes, ◌+◌, ◌<◌, ◌≡◌, ◌↔◌, refl, true, Bool-cases, inl, inr, Option, none, some, List, [],
  ◌∷◌, ◌++◌, length, length-append, if◌then◌else◌, arith, sym,
}
use ppp.Lcp.Options.{
  LcpOptions, Form, void, short, chap, long, lqr, char, endp, Ci, form_len, add_form, ack_form,
  ack_bytes,
}
use ppp.Lcp.Request.{
  chap_digest, total_len, add_all, ack_all, is_end, cilen, addci, ackci, added, acked,
}

-- The values of an option have the widths of their fields.
abbrev pub Fits : Form → Type 0
Fits void = Unit
Fits (short v) = v < 65536
Fits (chap v) = v < 256
Fits (long v) = v < 4294967296
Fits (lqr v) = v < 4294967296
Fits (char v) = v < 256
Fits (endp class value) = (class < 256) × (length value < 253)

abbrev pub AllFit : List Ci → Type 0
AllFit [] = Unit
AllFit (c ∷ cs) = (c.neg ≡ true → Fits c.form) × AllFit cs

length-add_form :
    (opt : ℕ) (f : Form) (rest : List ℕ) → length (add_form opt f rest) ≡ form_len f + length rest
length-add_form opt void rest = omega arith
length-add_form opt (short v) rest = omega arith
length-add_form opt (chap v) rest = omega arith
length-add_form opt (long v) rest = omega arith
length-add_form opt (lqr v) rest = omega arith
length-add_form opt (char v) rest = omega arith
length-add_form opt (endp class value) rest = omega (arith, length-append value rest)

length-add_all : (cs : List Ci) → length (add_all cs) ≡ total_len cs
unfolding add_all total_len
length-add_all [] = refl
length-add_all (c ∷ cs) =
    ground (arith, length-add_all cs, length-add_form c.opt c.form (add_all cs))

-- The length that is announced is the length that is written, so the message about a wrong length
-- is never logged.
length-addci : (go : LcpOptions) → length (addci go) ≡ cilen go
unfolding addci cilen
length-addci go = length-add_all (added go)

ack_bytes-append : (value rest : List ℕ) → ack_bytes value (value ++ rest) ≡ some rest
ack_bytes-append [] rest = refl
ack_bytes-append (v ∷ vs) rest = ground (arith, ack_bytes-append vs rest)

ack_form-add_form :
    (opt : ℕ) (f : Form) (rest : List ℕ) → Fits f → ack_form opt f (add_form opt f rest) ≡ some rest
unfolding ack_form
ack_form-add_form opt void rest h = ground arith
ack_form-add_form opt (short v) rest h = ground arith
ack_form-add_form opt (chap v) rest h = ground arith
ack_form-add_form opt (long v) rest h = ground arith
ack_form-add_form opt (lqr v) rest h = ground arith
ack_form-add_form opt (char v) rest h = ground arith
ack_form-add_form opt (endp class value) rest h = ground (arith, ack_bytes-append value rest)

ack_all-add_all : (cs : List Ci) → AllFit cs → ack_all cs (add_all cs) ≡ some []
unfolding ack_all add_all
ack_all-add_all [] h = refl
ack_all-add_all (c ∷ cs) h =
    ground (arith, ack_all-add_all cs h.1, ack_form-add_form c.opt c.form (add_all cs))

ack_bytes_inv : (value p rest : List ℕ) → ack_bytes value p ≡ some rest → p ≡ value ++ rest
ack_bytes_inv [] p rest h = ground arith
ack_bytes_inv (v ∷ vs) [] rest h = cc
ack_bytes_inv (v ∷ vs) (b ∷ p) rest h = ground (arith, ack_bytes_inv vs p rest)

pub ack_form_inv :
    (opt : ℕ) (f : Form) (p rest : List ℕ)
    → AllBytes p
    → ack_form opt f p ≡ some rest
    → p ≡ add_form opt f rest
unfolding ack_form
ack_form_inv opt void [] rest h e = cc
ack_form_inv opt void (_ ∷ []) rest h e = cc
ack_form_inv opt void (t ∷ l ∷ p) rest h e = ground arith
ack_form_inv opt (short v) [] rest h e = cc
ack_form_inv opt (short v) (_ ∷ []) rest h e = cc
ack_form_inv opt (short v) (_ ∷ _ ∷ []) rest h e = cc
ack_form_inv opt (short v) (_ ∷ _ ∷ _ ∷ []) rest h e = cc
ack_form_inv opt (short v) (t ∷ l ∷ hi ∷ lo ∷ p) rest h e = ground arith
ack_form_inv opt (chap v) [] rest h e = cc
ack_form_inv opt (chap v) (_ ∷ []) rest h e = cc
ack_form_inv opt (chap v) (_ ∷ _ ∷ []) rest h e = cc
ack_form_inv opt (chap v) (_ ∷ _ ∷ _ ∷ []) rest h e = cc
ack_form_inv opt (chap v) (_ ∷ _ ∷ _ ∷ _ ∷ []) rest h e = cc
ack_form_inv opt (chap v) (t ∷ l ∷ hi ∷ lo ∷ d ∷ p) rest h e = ground arith
ack_form_inv opt (long v) [] rest h e = cc
ack_form_inv opt (long v) (_ ∷ []) rest h e = cc
ack_form_inv opt (long v) (_ ∷ _ ∷ []) rest h e = cc
ack_form_inv opt (long v) (_ ∷ _ ∷ _ ∷ []) rest h e = cc
ack_form_inv opt (long v) (_ ∷ _ ∷ _ ∷ _ ∷ []) rest h e = cc
ack_form_inv opt (long v) (_ ∷ _ ∷ _ ∷ _ ∷ _ ∷ []) rest h e = cc
ack_form_inv opt (long v) (t ∷ l ∷ b3 ∷ b2 ∷ b1 ∷ b0 ∷ p) rest h e = ground arith
ack_form_inv opt (lqr v) [] rest h e = cc
ack_form_inv opt (lqr v) (_ ∷ []) rest h e = cc
ack_form_inv opt (lqr v) (_ ∷ _ ∷ []) rest h e = cc
ack_form_inv opt (lqr v) (_ ∷ _ ∷ _ ∷ []) rest h e = cc
ack_form_inv opt (lqr v) (_ ∷ _ ∷ _ ∷ _ ∷ []) rest h e = cc
ack_form_inv opt (lqr v) (_ ∷ _ ∷ _ ∷ _ ∷ _ ∷ []) rest h e = cc
ack_form_inv opt (lqr v) (_ ∷ _ ∷ _ ∷ _ ∷ _ ∷ _ ∷ []) rest h e = cc
ack_form_inv opt (lqr v) (_ ∷ _ ∷ _ ∷ _ ∷ _ ∷ _ ∷ _ ∷ []) rest h e = cc
ack_form_inv opt (lqr v) (t ∷ l ∷ hi ∷ lo ∷ b3 ∷ b2 ∷ b1 ∷ b0 ∷ p) rest h e = ground arith
ack_form_inv opt (char v) [] rest h e = cc
ack_form_inv opt (char v) (_ ∷ []) rest h e = cc
ack_form_inv opt (char v) (_ ∷ _ ∷ []) rest h e = cc
ack_form_inv opt (char v) (t ∷ l ∷ c ∷ p) rest h e = ground arith
ack_form_inv opt (endp class value) [] rest h e = cc
ack_form_inv opt (endp class value) (_ ∷ []) rest h e = cc
ack_form_inv opt (endp class value) (_ ∷ _ ∷ []) rest h e = cc
ack_form_inv opt (endp class value) (t ∷ l ∷ c ∷ p) rest h e =
    ground (arith, ack_bytes_inv value p rest)

AllBytes-append_right : (xs ys : List ℕ) → AllBytes (xs ++ ys) → AllBytes ys
AllBytes-append_right [] ys h = h
AllBytes-append_right (x ∷ xs) ys h = AllBytes-append_right xs ys h.1

pub AllBytes-rest :
    (opt : ℕ) (f : Form) (rest : List ℕ) → AllBytes (add_form opt f rest) → AllBytes rest
AllBytes-rest opt void rest h = h.1.1
AllBytes-rest opt (short v) rest h = h.1.1.1.1
AllBytes-rest opt (chap v) rest h = h.1.1.1.1.1
AllBytes-rest opt (long v) rest h = h.1.1.1.1.1.1
AllBytes-rest opt (lqr v) rest h = h.1.1.1.1.1.1.1.1
AllBytes-rest opt (char v) rest h = h.1.1.1
AllBytes-rest opt (endp class value) rest h = AllBytes-append_right value rest h.1.1.1

ack_all-cons_inv :
    (c : Ci) (cs : List Ci) (p q : List ℕ)
    → AllBytes p
    → (if c.neg then ack_form c.opt c.form p else some p) ≡ some q
    → (AllBytes q → q ≡ add_all cs)
    → p ≡ add_all (c ∷ cs)
unfolding add_all
ack_all-cons_inv c cs p q h e tail = elim (Bool-cases c.neg) [
  | inl on ↦
      let form : p ≡ add_form c.opt c.form q =
        ack_form_inv c.opt c.form p q h (ground (arith, e, on)) in
      let bytes = AllBytes-rest c.opt c.form q (rw (sym form) h) in rw (on, sym (tail bytes)) form
  | inr off ↦ let same : p ≡ q = ground (arith, e, off) in rw (off, same) (tail (rw (sym same) h))
]

ack_all_inv :
    (cs : List Ci) (p : List ℕ) → AllBytes p → is_end (ack_all cs p) ≡ true → p ≡ add_all cs
unfolding ack_all add_all
ack_all_inv [] [] h e = refl
ack_all_inv [] (b ∷ p) h e = cc
ack_all_inv (c ∷ cs) p h e =
    go (if c.neg then ack_form c.opt c.form p else some p) refl e (ack_all_inv cs)
  where
    go :
        (r : Option (List ℕ))
        → (if c.neg then ack_form c.opt c.form p else some p) ≡ r
        → is_end (elim r [ none ↦ none | some rest ↦ ack_all cs rest ]) ≡ true
        → ((q : List ℕ) → AllBytes q → is_end (ack_all cs q) ≡ true → q ≡ add_all cs)
        → p ≡ add_all (c ∷ cs)
    go none r e tail = cc
    go (some rest) r e tail = ack_all-cons_inv c cs p rest h r (λ b. tail rest b e)

pub chap_digest-lt : (m : ℕ) → chap_digest m < 256
unfolding chap_digest
chap_digest-lt m = ground arith

-- The values fit the fields of a packet.
pub record IsSane (go : LcpOptions) : Type 0 where
  pub mru : go.mru < 65536
  pub mrru : go.mrru < 65536
  pub asyncmap : go.asyncmap < 4294967296
  pub magicnumber : go.magicnumber < 4294967296
  pub lqr_period : go.lqr_period < 4294967296
  pub class : go.endpoint.class < 256
  pub length_value : length go.endpoint.value < 253

added-AllFit : (go : LcpOptions) → IsSane go → AllFit (added go)
added-AllFit go s =
    let digest = chap_digest-lt go.chap_mdtype in
    (
      λ _. s.mru,
      (
        λ _. s.asyncmap,
        (
          λ _. omega arith,
          (
            λ _. digest,
            (
              λ _. omega arith,
              (
                λ _. s.lqr_period,
                (
                  λ _. omega arith,
                  (
                    λ _. s.magicnumber,
                    (
                      λ _. tt,
                      (λ _. tt, (λ _. s.mrru, (λ _. tt, (λ _. (s.class, s.length_value), tt)))),
                    ),
                  ),
                ),
              ),
            ),
          ),
        ),
      ),
    )

-- An Ack is good exactly when it repeats the request byte for byte, if the values fit their fields.
pub ackci_iff_addci :
    (go : LcpOptions) (p : List ℕ) → IsSane go → AllBytes p → (ackci go p ≡ true) ↔ (p ≡ addci go)
unfolding ackci addci
ackci_iff_addci go p s h =
    (λ e. ack_all_inv (acked go) p h e, λ e. rw (e, ack_all-add_all (added go) (added-AllFit go s)))
