-- ===== src/Lcp/Answer.antt =====
-- The answer to the peer's Configure-Request: `lcp_reqci` of pppd/lcp.c.
use ppp.Prelude.{
  ℕ, zero, suc, ◌+◌, ◌*◌, ◌≤◌, ◌≡◌, refl, ap, ◌∙◌, true, false, List, [], ◌∷◌, ◌++◌, length,
  length-append, ltb, arith,
}
use ppp.Lcp.Options.{LcpOptions}
use ppp.Lcp.Nak.{zeroed}
use ppp.Lcp.Req.{
  Verdict, ack, nak, rej, Checked, check_mru, check_asyncmap, check_pap, check_chap, check_eap,
  check_auth, check_lqr, check_magic, check_pcompression, check_accompression, check_mrru,
  check_ssnhf, check_endpoint, hint_chap, naks,
}
use ppp.Lcp.Cases.{check_ci-cases, req_all-keeps}
use ppp.Lcp.Reqci.{is_rej, Policy, Req, check_ci, reject, tally, round_ci, req_all, reqci}

-- A suggestion is at most a quarter longer than the option.
abbrev Short : ℕ → Checked → Type 0
Short l k = 4 * length k.hint ≤ 5 * l

-- Of a packet of `total` bytes `n` are still to be read.
record InBounds (total n : ℕ) (s : Req) : Type 0 where
  hints : 4 * length s.hints + 5 * n ≤ 5 * total
  rejected : length s.rejected + n ≤ total

module _ (c : Policy) (total : ℕ) where
  check_auth-Short : (l : ℕ) (v : List ℕ) (ho : LcpOptions) → Short l (check_auth c.ao l v ho)
  unfolding check_auth check_pap check_chap check_eap hint_chap
  check_auth-Short l v ho = ground arith

  check_ci-Short :
      (left t l : ℕ) (v : List ℕ) (ho : LcpOptions) → Short l (check_ci c left t l v ho)
  unfolding check_mru check_asyncmap check_lqr check_magic check_pcompression check_accompression
      check_mrru check_ssnhf check_endpoint
  check_ci-Short left t l v ho =
      check_ci-cases (Short l) c left t l v ho (ground arith) (ground arith)
        (check_auth-Short l v ho) (ground arith) (ground arith) (ground arith) (ground arith)
        (ground arith) (ground arith) (ground arith) (ground arith)

  tally-InBounds :
      (n t : ℕ) (o : List ℕ) (r : Verdict) (s : Req)
      → 4 * length s.hints + 5 * n ≤ 5 * total
      → length s.rejected + (n + length o) ≤ total
      → InBounds total n (tally c t o r s)
  tally-InBounds n t o ack s h k = ground arith
  tally-InBounds n t o nak s h k = ground (arith, length-append s.rejected o)
  tally-InBounds n t o rej s h k = ground (arith, length-append s.rejected o)

  round_ci-InBounds :
      (t l : ℕ) (v : List ℕ) (left n : ℕ) (s : Req)
      → l ≡ 2 + length v
      → InBounds total (n + (2 + length v)) s
      → InBounds total n (round_ci c left t l v s)
  unfolding round_ci
  round_ci-InBounds t l v left n s e h =
      let k = check_ci c left t l v s.ho in
      tally-InBounds n t (t ∷ l ∷ v) k.orc (record s { ho = k.ho; hints = s.hints ++ k.hint })
        (omega (arith, length-append s.hints k.hint, check_ci-Short left t l v s.ho, h.hints))
        (omega (arith, h.rejected))

  reject-InBounds :
      (p : List ℕ) (n : ℕ) (s : Req)
      → InBounds total (n + length p) s
      → InBounds total n (reject p s)
  reject-InBounds p n s h = ground (arith, length-append s.rejected p)

-- The answer is at most a quarter longer than the Configure-Request.
pub length-reqci : (c : Policy) (p : List ℕ) → 4 * length (reqci c p).packet ≤ 5 * length p
unfolding reqci
length-reqci c p =
    let start : Req = record { rc = ack; ho = zeroed; hints = []; rejected = [] } in
    let h : InBounds (length p) 0 (req_all c 0 p start) =
      req_all-keeps (InBounds (length p)) c (round_ci-InBounds c (length p))
        (reject-InBounds c (length p)) 0 p start (ground arith) in
    ground (arith, h.hints, h.rejected)

-- A Configure-Request of `n` options, each asking for PAP.
abbrev pub paps : ℕ → List ℕ
paps zero = []
paps (suc n) = 3 ∷ 4 ∷ 0xc0 ∷ 0x23 ∷ paps n

-- The verdict behind `n` of them.
abbrev after : ℕ → Verdict → Verdict
after zero r = r
after (suc n) r = nak

after-nak : (n : ℕ) → after n nak ≡ nak
after-nak zero = refl
after-nak (suc n) = refl

length-paps : (n : ℕ) → length (paps n) ≡ 4 * n
length-paps zero = refl
length-paps (suc n) = ground (arith, length-paps n)

module _ (c : Policy) (only_chap : c.ao.neg_upap ≡ false) (chap : c.ao.neg_chap ≡ true)
    (no_eap : c.ao.neg_eap ≡ false) (patient : c.tough ≡ false) where
  -- Every option gets the Nak that names CHAP.
  check_ci-pap :
      (left : ℕ) → check_ci c left 3 4 (0xc0 ∷ 0x23 ∷ []) zeroed ≡ naks (hint_chap c.ao) zeroed
  unfolding check_ci check_auth check_pap
  check_ci-pap left = ground (arith, only_chap, chap, no_eap)

  tally-nak :
      (t : ℕ) (o : List ℕ) (s : Req)
      → is_rej s.rc ≡ false
      → tally c t o nak s ≡ record s { rc = nak }
  tally-nak t o s h = rw (patient, h) refl

  round_ci-pap :
      (left : ℕ) (s : Req)
      → s.ho ≡ zeroed
      → is_rej s.rc ≡ false
      → round_ci c left 3 4 (0xc0 ∷ 0x23 ∷ []) s
        ≡ record { rc = nak; ho = zeroed; hints = s.hints ++ hint_chap c.ao; rejected = s.rejected }
  unfolding round_ci
  round_ci-pap left s e h =
      rw (e, check_ci-pap left)
        (tally-nak 3 _ (record s { ho = zeroed; hints = s.hints ++ hint_chap c.ao }) h)

  length-hint_chap : length (hint_chap c.ao) ≡ 5
  unfolding hint_chap
  length-hint_chap = refl

  req_all-paps :
      (n : ℕ) (s : Req)
      → s.ho ≡ zeroed
      → is_rej s.rc ≡ false
      → ((req_all c 0 (paps n) s).rc ≡ after n s.rc)
        × (length (req_all c 0 (paps n) s).hints ≡ length s.hints + 5 * n)
  unfolding req_all
  req_all-paps zero s e h = (refl, omega arith)
  req_all-paps (suc n) s e h =
      let k : Req = record {
        rc = nak;
        ho = zeroed;
        hints = s.hints ++ hint_chap c.ao;
        rejected = s.rejected;
      } in
      let rest = req_all-paps n k refl refl in
      let long : length k.hints ≡ length s.hints + 5 =
        length-append s.hints (hint_chap c.ao) ∙ ap (λ m. length s.hints + m) length-hint_chap in
      let fits : ltb (length (0xc0 ∷ 0x23 ∷ paps n) + 2) 4 ≡ false = ground arith in
      rw (round_ci-pap (length (0xc0 ∷ 0x23 ∷ paps n)) s e h, fits)
        (rest.0 ∙ after-nak n, omega (arith, rest.1, long))

  -- Where we allow CHAP alone, a Configure-Request of `n` times the option for PAP, `4 * n` bytes,
  -- is answered with `5 * n` bytes of suggestions, as long as `reject_if_disagree` is not set.
  -- `lcp_reqci` collects them in the 1500 bytes of `nak_buffer`: 374 options, a request of 1496
  -- bytes that a frame of 1500 holds, make it write 1870.
  pub reqci-pap_flood :
      (n : ℕ) → (length (paps n) ≡ 4 * n) × (length (reqci c (paps n)).packet ≡ 5 * n)
  unfolding reqci
  reqci-pap_flood zero = (refl, refl)
  reqci-pap_flood (suc n) =
      let start : Req = record { rc = ack; ho = zeroed; hints = []; rejected = [] } in
      let all = req_all-paps (suc n) start refl refl in
      (length-paps (suc n), rw (all.0) (omega (arith, all.1)))
