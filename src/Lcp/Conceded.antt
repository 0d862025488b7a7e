-- ===== src/Lcp/Conceded.antt =====
-- What a Configure-Nak can make us ask for: `lcp_nakci` of pppd/lcp.c.
use ppp.Prelude.{
  ℕ, ◌<◌, ◌≤◌, ◌≡◌, refl, Bool, true, ◌&&◌, ◌||◌, ◌==◌, List, [], ◌∷◌, arith, bit_at, bit_at-or,
  every_below, every_below-test, leb, ltb,
}
use ppp.Lcp.Options.{LcpOptions}
use ppp.Lcp.Shrink.{bit}
use ppp.Lcp.Nak.{
  Nak, chap_mdtype, chap_mdtype_d, chap_candigest, and_not, long_of, nak_mru, nak_asyncmap, nak_lqr,
  nak_cbcp, nak_magic, nak_pcompression, nak_accompression, nak_mrru, nak_ssnhf, nak_endpoint,
}

-- The options `t` that a Nak may make of ours, `go`, with what we want, `wo`: of the protocols,
-- compressions and other options only the MRU and the short sequence numbers can be new; the digest
-- `d` of CHAP is there only if it was; the character `k` stays in the map; the MRU is ours, or at
-- most the one that we want, or at most 1500; and the MRRU is ours, or at most the one that we want.
pub record Conceded (d k : ℕ) (go wo t : LcpOptions) : Type 0 where
  pub asyncmap : bit t.neg_asyncmap ≤ bit go.neg_asyncmap
  pub upap : bit t.neg_upap ≤ bit go.neg_upap
  pub chap : bit t.neg_chap ≤ bit go.neg_chap
  pub eap : bit t.neg_eap ≤ bit go.neg_eap
  pub magicnumber : bit t.neg_magicnumber ≤ bit go.neg_magicnumber
  pub pcompression : bit t.neg_pcompression ≤ bit go.neg_pcompression
  pub accompression : bit t.neg_accompression ≤ bit go.neg_accompression
  pub lqr : bit t.neg_lqr ≤ bit go.neg_lqr
  pub cbcp : bit t.neg_cbcp ≤ bit go.neg_cbcp
  pub mrru : bit t.neg_mrru ≤ bit go.neg_mrru
  pub endpoint : bit t.neg_endpoint ≤ bit go.neg_endpoint
  pub supported : t.chap_mdtype < 8
  pub digest : bit (chap_candigest t.chap_mdtype d) ≤ bit (chap_candigest go.chap_mdtype d)
  pub map : bit_at k go.asyncmap ≤ bit_at k t.asyncmap
  pub mru_value : (t.mru == go.mru) || leb t.mru wo.mru || leb t.mru 1500 ≡ true
  pub mrru_value : (t.mrru == go.mrru) || leb t.mrru wo.mrru ≡ true

-- The digest that a peer suggests, and the masks of fewer digests.
pub suggested :
    (m c d : ℕ)
    → chap_candigest m c ≡ true
    → bit (chap_candigest (chap_mdtype_d c) d) ≤ bit (chap_candigest m d)
unfolding chap_candigest chap_mdtype_d
suggested m c d h = ground arith

pub chap_mdtype_d-lt : (c : ℕ) → chap_mdtype_d c < 8
unfolding chap_mdtype_d
chap_mdtype_d-lt c = ground arith

abbrev fewer : ℕ → ℕ → Bool
fewer d m =
    let left = and_not m (chap_mdtype m) in
    ltb left 8 && leb (bit (chap_candigest left d)) (bit (chap_candigest m d))

fewer_v2 : every_below (fewer 0x81) 8 ≡ true
unfolding every_below and_not chap_mdtype chap_candigest
fewer_v2 = refl

fewer_v1 : every_below (fewer 0x80) 8 ≡ true
unfolding every_below and_not chap_mdtype chap_candigest
fewer_v1 = refl

fewer_md5 : every_below (fewer 5) 8 ≡ true
unfolding every_below and_not chap_mdtype chap_candigest
fewer_md5 = refl

pub left_over :
    (m d : ℕ)
    → m < 8
    → (and_not m (chap_mdtype m) < 8)
      × (bit (chap_candigest (and_not m (chap_mdtype m)) d) ≤ bit (chap_candigest m d))
unfolding chap_candigest
left_over m d h = ground (
  arith,
  every_below-test (fewer 0x81) 8 m h fewer_v2,
  every_below-test (fewer 0x80) 8 m h fewer_v1,
  every_below-test (fewer 5) 8 m h fewer_md5,
)

module _ (d k : ℕ) (go wo : LcpOptions) where
  abbrev Fine : LcpOptions → Type 0
  Fine t = Conceded d k go wo t

  pub nak_mru-Conceded : (v : List ℕ) (s : Nak) → Fine s.try → Fine (nak_mru wo v s).try
  unfolding nak_mru
  nak_mru-Conceded v s h = ground arith

  pub nak_asyncmap-Conceded : (v : List ℕ) (s : Nak) → Fine s.try → Fine (nak_asyncmap go v s).try
  unfolding nak_asyncmap
  nak_asyncmap-Conceded v s h = ground (arith, bit_at-or k go.asyncmap (long_of v))

  pub nak_lqr-Conceded : (v : List ℕ) (s : Nak) → Fine s.try → Fine (nak_lqr v s).try
  unfolding nak_lqr
  nak_lqr-Conceded v s h = ground arith

  pub nak_cbcp-Conceded : (v : List ℕ) (s : Nak) → Fine s.try → Fine (nak_cbcp v s).try
  unfolding nak_cbcp
  nak_cbcp-Conceded v s h = ground arith

  pub nak_magic-Conceded : (m : ℕ) (v : List ℕ) (s : Nak) → Fine s.try → Fine (nak_magic m v s).try
  unfolding nak_magic
  nak_magic-Conceded m v s h = ground arith

  pub nak_pcompression-Conceded :
      (v : List ℕ) (s : Nak) → Fine s.try → Fine (nak_pcompression v s).try
  unfolding nak_pcompression
  nak_pcompression-Conceded v s h = ground arith

  pub nak_accompression-Conceded :
      (v : List ℕ) (s : Nak) → Fine s.try → Fine (nak_accompression v s).try
  unfolding nak_accompression
  nak_accompression-Conceded v s h = ground arith

  pub nak_mrru-Conceded :
      (b : Bool) (v : List ℕ) (s : Nak) → Fine s.try → Fine (nak_mrru b wo v s).try
  unfolding nak_mrru
  nak_mrru-Conceded b v s h = ground arith

  pub nak_ssnhf-Conceded : (v : List ℕ) (s : Nak) → Fine s.try → Fine (nak_ssnhf v s).try
  unfolding nak_ssnhf
  nak_ssnhf-Conceded v s h = ground arith

  pub nak_endpoint-Conceded : (s : Nak) (p : List ℕ) → Fine s.try → Fine (nak_endpoint go s p).try
  unfolding nak_endpoint
  nak_endpoint-Conceded s [] h = h
  nak_endpoint-Conceded s (t ∷ []) h = h
  nak_endpoint-Conceded s (t ∷ l ∷ []) h = h
  nak_endpoint-Conceded s (t ∷ l ∷ c ∷ p) h = ground arith
