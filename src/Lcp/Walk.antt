-- ===== src/Lcp/Walk.antt =====
-- `lcp_reqci` of pppd/lcp.c, on a Configure-Request of options that are all acceptable.
use ppp.Prelude.{
  ℕ, ◌+◌, ◌-◌, ◌%◌, ◌≡◌, refl, sym, ap, ◌∙◌, true, false, ◌||◌, List, [], ◌∷◌, ◌++◌, length,
  length-append, append-nil, take-append, ltb, arith, Bool-cases, inl, inr,
}
use ppp.Lcp.Options.{
  LcpOptions, Form, void, short, chap, long, lqr, char, endp, Ci, form_len, add_form, put_short,
  put_long, ppp_chap, ppp_lqr,
}
use ppp.Lcp.Request.{add_all}
use ppp.Lcp.Agreement.{Fits}
use ppp.Lcp.Req.{acks}
use ppp.Lcp.Reqci.{Policy, Req, check_ci, round_ci, req_all}

-- The value of an option, behind its header.
abbrev pub body : Form → List ℕ
body void = []
body (short v) = put_short v []
body (chap v) = put_short ppp_chap ((v % 256) ∷ [])
body (long v) = put_long v []
body (lqr v) = put_short ppp_lqr (put_long v [])
body (char v) = (v % 256) ∷ []
body (endp class value) = (class % 256) ∷ value

length-body : (f : Form) → form_len f ≡ 2 + length (body f)
length-body void = refl
length-body (short v) = omega arith
length-body (chap v) = omega arith
length-body (long v) = omega arith
length-body (lqr v) = omega arith
length-body (char v) = omega arith
length-body (endp class value) = omega arith

add_form-body :
    (opt : ℕ) (f : Form) (rest : List ℕ)
    → Fits f
    → add_form opt f rest ≡ opt ∷ form_len f ∷ (body f ++ rest)
add_form-body opt void rest h = refl
add_form-body opt (short v) rest h = refl
add_form-body opt (chap v) rest h = refl
add_form-body opt (long v) rest h = refl
add_form-body opt (lqr v) rest h = refl
add_form-body opt (char v) rest h = refl
add_form-body opt (endp class value) rest h = ground arith

module _ (c : Policy) where
  pass_over : (v rest : List ℕ) (s : Req) → req_all c (length v) (v ++ rest) s ≡ req_all c 0 rest s
  unfolding req_all
  pass_over [] rest s = refl
  pass_over (b ∷ v) rest s = pass_over v rest s

  req_all-option :
      (t : ℕ) (v rest : List ℕ) (s : Req)
      → req_all c 0 (t ∷ (2 + length v) ∷ (v ++ rest)) s
        ≡ req_all c 0 rest (round_ci c (length (v ++ rest)) t (2 + length v) v s)
  unfolding req_all
  req_all-option t v rest s =
      let l = 2 + length v in
      let fits : ltb l 2 || ltb (length (v ++ rest) + 2) l ≡ false =
        ground (arith, length-append v rest) in
      let behind : l - 2 ≡ length v = omega arith in
      rw (fits, behind, take-append v rest)
        (pass_over v rest (round_ci c (length (v ++ rest)) t l v s))

-- An option of a request, and what is remembered of it.
pub record Offer : Type 0 where
  pub item : Ci
  pub noted : LcpOptions → LcpOptions

abbrev pub items : List Offer → List Ci
items [] = []
items (o ∷ os) = o.item ∷ items os

abbrev pub note_all : List Offer → LcpOptions → LcpOptions
note_all [] ho = ho
note_all (o ∷ os) ho = note_all os (o.noted ho)

module _ (c : Policy) where
  -- The option is acceptable when the peer's options so far are `ho`.
  pub record IsWelcome (o : Offer) (ho : LcpOptions) : Type 0 where
    pub fits : o.item.neg ≡ true → Fits o.item.form
    pub agreed :
        o.item.neg ≡ true
        → (left : ℕ)
        → check_ci c left o.item.opt (form_len o.item.form) (body o.item.form) ho
          ≡ acks (o.noted ho)
    pub absent : o.item.neg ≡ false → o.noted ho ≡ ho

  abbrev pub AllWelcome : List Offer → LcpOptions → Type 0
  AllWelcome [] ho = Unit
  AllWelcome (o ∷ os) ho = IsWelcome o ho × AllWelcome os (o.noted ho)

  round_ci-welcome :
      (o : Offer) (left : ℕ) (s : Req)
      → o.item.neg ≡ true
      → IsWelcome o s.ho
      → round_ci c left o.item.opt (form_len o.item.form) (body o.item.form) s
        ≡ record s { ho = o.noted s.ho }
  unfolding round_ci
  round_ci-welcome o left s on h = rw (h.agreed on left, append-nil s.hints) refl

  pub req_all-welcome :
      (os : List Offer) (s : Req)
      → AllWelcome os s.ho
      → req_all c 0 (add_all (items os)) s ≡ record s { ho = note_all os s.ho }
  unfolding req_all add_all
  req_all-welcome [] s h = refl
  req_all-welcome (o ∷ os) s h = elim (Bool-cases o.item.neg) [
    | inl on ↦
        let rest = add_all (items os) in
        let v = body o.item.form in
        rw on (
          ap (λ p. req_all c 0 p s)
            (add_form-body o.item.opt o.item.form rest (h.0.fits on)
              ∙ ap (λ l. o.item.opt ∷ l ∷ (v ++ rest)) (length-body o.item.form))
          ∙ req_all-option c o.item.opt v rest s
          ∙ ap (λ l. req_all c 0 rest (round_ci c (length (v ++ rest)) o.item.opt l v s))
              (sym (length-body o.item.form))
          ∙ ap (req_all c 0 rest) (round_ci-welcome o (length (v ++ rest)) s on (h.0))
          ∙ req_all-welcome os (record s { ho = o.noted s.ho }) (h.1))
    | inr off ↦
        let same : o.noted s.ho ≡ s.ho = h.0.absent off in
        rw (off, same) (req_all-welcome os s (rw same at h.1))
  ]
