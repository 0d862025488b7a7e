-- ===== src/Lcp/Granted.antt =====
-- What the peer's Configure-Request can make us remember of it: `lcp_reqci` of pppd/lcp.c.
use ppp.Prelude.{ℕ, ◌+◌, ◌≤◌, ◌≡◌, refl, true, List, [], ◌∷◌, ◌++◌, length, drop, arith}
use ppp.Lcp.Options.{LcpOptions}
use ppp.Lcp.Request.{chap_digest}
use ppp.Lcp.Shrink.{bit}
use ppp.Lcp.Nak.{zeroed, chap_candigest, chap_mdtype_d, and_not}
use ppp.Lcp.Req.{
  byte_at, Verdict, ack, nak, rej, check_mru, check_asyncmap, check_pap, check_chap, check_eap,
  check_auth, check_lqr, check_magic, check_pcompression, check_accompression, check_mrru,
  check_ssnhf, check_endpoint,
}
use ppp.Lcp.Cases.{check_ci-cases, req_all-keeps}
use ppp.Lcp.Reqci.{Policy, Req, check_ci, tally, round_ci, reqci}

-- The peer's options `ho` are such as we allow: each is one of ours to allow (a magic number also
-- if we ask for one ourselves); the MRU is not too small; every character of our map is in his; one
-- authentication protocol at most; and the digest that `link_established` takes for CHAP is one that
-- we have.
pub record Granted (c : Policy) (ho : LcpOptions) : Type 0 where
  pub mru : bit ho.neg_mru ≤ bit c.ao.neg_mru
  pub mru_value : ho.neg_mru ≡ true → 128 ≤ ho.mru
  pub asyncmap : bit ho.neg_asyncmap ≤ bit c.ao.neg_asyncmap
  pub map : ho.neg_asyncmap ≡ true → and_not c.ao.asyncmap ho.asyncmap ≡ 0
  pub upap : bit ho.neg_upap ≤ bit c.ao.neg_upap
  pub chap : bit ho.neg_chap ≤ bit c.ao.neg_chap
  pub eap : bit ho.neg_eap ≤ bit c.ao.neg_eap
  pub one : bit ho.neg_upap + bit ho.neg_chap + bit ho.neg_eap ≤ 1
  pub digest :
      ho.neg_chap ≡ true → chap_candigest c.ao.chap_mdtype (chap_digest ho.chap_mdtype) ≡ true
  pub magicnumber : bit ho.neg_magicnumber ≤ bit c.ao.neg_magicnumber + bit c.go.neg_magicnumber
  pub pcompression : bit ho.neg_pcompression ≤ bit c.ao.neg_pcompression
  pub accompression : bit ho.neg_accompression ≤ bit c.ao.neg_accompression
  pub mrru : bit ho.neg_mrru ≤ bit c.ao.neg_mrru
  pub ssnhf : bit ho.neg_ssnhf ≤ bit c.ao.neg_ssnhf
  pub endpoint : bit ho.neg_endpoint ≤ bit c.ao.neg_endpoint

-- The digest of the mask for one digest is that digest.
digest_back : (m d : ℕ) → chap_candigest m d ≡ true → chap_digest (chap_mdtype_d d) ≡ d
unfolding chap_candigest chap_mdtype_d chap_digest
digest_back m d h = ground arith

module _ (c : Policy) where
  check_mru-Granted :
      (l : ℕ) (v : List ℕ) (ho : LcpOptions) → Granted c ho → Granted c (check_mru c.ao l v ho).ho
  unfolding check_mru
  check_mru-Granted l v ho h = ground arith

  check_asyncmap-Granted :
      (l : ℕ) (v : List ℕ) (ho : LcpOptions)
      → Granted c ho
      → Granted c (check_asyncmap c.ao l v ho).ho
  unfolding check_asyncmap
  check_asyncmap-Granted l v ho h = ground arith

  check_chap-Granted :
      (l : ℕ) (v : List ℕ) (ho : LcpOptions) → Granted c ho → Granted c (check_chap c.ao l v ho).ho
  unfolding check_chap
  check_chap-Granted l v ho h = ground (arith, digest_back c.ao.chap_mdtype (byte_at (drop 2 v)))

  check_pap-Granted : (l : ℕ) (ho : LcpOptions) → Granted c ho → Granted c (check_pap c.ao l ho).ho
  unfolding check_pap
  check_pap-Granted l ho h = ground arith

  check_eap-Granted : (l : ℕ) (ho : LcpOptions) → Granted c ho → Granted c (check_eap c.ao l ho).ho
  unfolding check_eap
  check_eap-Granted l ho h = ground arith

  check_pcompression-Granted :
      (l : ℕ) (ho : LcpOptions) → Granted c ho → Granted c (check_pcompression c.ao l ho).ho
  unfolding check_pcompression
  check_pcompression-Granted l ho h = ground arith

  check_accompression-Granted :
      (l : ℕ) (ho : LcpOptions) → Granted c ho → Granted c (check_accompression c.ao l ho).ho
  unfolding check_accompression
  check_accompression-Granted l ho h = ground arith

  check_auth-Granted :
      (l : ℕ) (v : List ℕ) (ho : LcpOptions) → Granted c ho → Granted c (check_auth c.ao l v ho).ho
  unfolding check_auth
  check_auth-Granted l v ho h =
      ground
        (arith, check_pap-Granted l ho h, check_chap-Granted l v ho h, check_eap-Granted l ho h)

  check_lqr-Granted :
      (l : ℕ) (v : List ℕ) (ho : LcpOptions) → Granted c ho → Granted c (check_lqr c.ao l v ho).ho
  unfolding check_lqr
  check_lqr-Granted l v ho h = ground arith

  check_magic-Granted :
      (m : ℕ) (l : ℕ) (v : List ℕ) (ho : LcpOptions)
      → Granted c ho
      → Granted c (check_magic c.ao c.go m l v ho).ho
  unfolding check_magic
  check_magic-Granted m l v ho h = ground arith

  check_mrru-Granted :
      (l : ℕ) (v : List ℕ) (ho : LcpOptions)
      → Granted c ho
      → Granted c (check_mrru c.ao c.multilink l v ho).ho
  unfolding check_mrru
  check_mrru-Granted l v ho h = ground arith

  check_ssnhf-Granted :
      (l : ℕ) (ho : LcpOptions) → Granted c ho → Granted c (check_ssnhf c.ao c.multilink l ho).ho
  unfolding check_ssnhf
  check_ssnhf-Granted l ho h = ground arith

  check_endpoint-Granted :
      (l : ℕ) (v : List ℕ) (ho : LcpOptions)
      → Granted c ho
      → Granted c (check_endpoint c.ao l v ho).ho
  unfolding check_endpoint
  check_endpoint-Granted l v ho h = ground arith

  check_ci-Granted :
      (left t l : ℕ) (v : List ℕ) (ho : LcpOptions)
      → Granted c ho
      → Granted c (check_ci c left t l v ho).ho
  check_ci-Granted left t l v ho h =
      check_ci-cases (λ k. Granted c k.ho) c left t l v ho (check_mru-Granted l v ho h)
        (check_asyncmap-Granted l v ho h) (check_auth-Granted l v ho h) (check_lqr-Granted l v ho h)
        (check_magic-Granted (c.magic left) l v ho h) (check_pcompression-Granted l ho h)
        (check_accompression-Granted l ho h) (check_mrru-Granted l v ho h)
        (check_ssnhf-Granted l ho h) (check_endpoint-Granted l v ho h) h

  tally_ho : (t : ℕ) (o : List ℕ) (r : Verdict) (s : Req) → (tally c t o r s).ho ≡ s.ho
  tally_ho t o ack s = refl
  tally_ho t o nak s = ground arith
  tally_ho t o rej s = refl

  round_ci-Granted :
      (t l : ℕ) (v : List ℕ) (left n : ℕ) (s : Req)
      → l ≡ 2 + length v
      → Granted c s.ho
      → Granted c (round_ci c left t l v s).ho
  unfolding round_ci
  round_ci-Granted t l v left n s e h =
      let k = check_ci c left t l v s.ho in
      rw (tally_ho t (t ∷ l ∷ v) k.orc (record s { ho = k.ho; hints = s.hints ++ k.hint }))
        (check_ci-Granted left t l v s.ho h)

  -- Whatever the peer asks for, and whatever the answer is, what `lcp_reqci` remembers of it is such
  -- as our settings allow: each option is one that we allow (a magic number also if we ask for one),
  -- the MRU is at least 128, the character map has every character of ours, at most one of PAP, CHAP
  -- and EAP is there, and with CHAP the digest that will be used is one of ours.
  pub reqci-Granted : (p : List ℕ) → Granted c (reqci c p).ho
  unfolding reqci
  reqci-Granted p =
      req_all-keeps (λ n s. Granted c s.ho) c round_ci-Granted (λ q n s h. h) 0 p
        (record { rc = ack; ho = zeroed; hints = []; rejected = [] }) (ground arith)
