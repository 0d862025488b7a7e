-- ===== src/Lcp/Request.antt =====
-- pppd/lcp.c: the making of a Configure-Request's options and the check of their Ack.
use ppp.Prelude.{
  ℕ, ◌+◌, Bool, true, false, not, ◌&&◌, Option, none, some, List, [], ◌∷◌, ◌==◌, if◌then◌else◌,
  bit_and,
}
use ppp.Lcp.Options.{
  LcpOptions, void, short, chap, long, lqr, char, endp, Ci, ci, form_len, add_form, ack_form,
}

-- The macro `CHAP_DIGEST` of chap.h: MD5 first, then MS-CHAPv2, then MS-CHAP.
unfoldable pub chap_digest : ℕ → ℕ
chap_digest mdtype =
    if not (bit_and mdtype 4 == 0)
    then 5
    else if not (bit_and mdtype 1 == 0)
    then 0x81
    else if not (bit_and mdtype 2 == 0)
    then 0x80
    else 0

-- The options whose lengths `lcp_cilen` adds up, in its order.
abbrev pub measured : LcpOptions → List Ci
measured go =
    ci 1 (go.neg_mru && not (go.mru == 1500)) (short go.mru)
    ∷ ci 2 (go.neg_asyncmap && not (go.asyncmap == 0xFFFFFFFF)) (long go.asyncmap)
    ∷ ci 3 go.neg_eap (short 0xc227)
    ∷ ci 3 (not go.neg_eap && go.neg_chap) (chap (chap_digest go.chap_mdtype))
    ∷ ci 3 (not go.neg_eap && not go.neg_chap && go.neg_upap) (short 0xc023)
    ∷ ci 4 go.neg_lqr (lqr go.lqr_period)
    ∷ ci 13 go.neg_cbcp (char 6)
    ∷ ci 5 go.neg_magicnumber (long go.magicnumber)
    ∷ ci 7 go.neg_pcompression void
    ∷ ci 8 go.neg_accompression void
    ∷ ci 17 go.neg_mrru (short go.mrru)
    ∷ ci 18 go.neg_ssnhf void
    ∷ ci 19 go.neg_endpoint (endp go.endpoint.class go.endpoint.value)
    ∷ []

-- The options that `lcp_addci` puts, in its order.
abbrev pub added : LcpOptions → List Ci
added go =
    ci 1 (go.neg_mru && not (go.mru == 1500)) (short go.mru)
    ∷ ci 2 (go.neg_asyncmap && not (go.asyncmap == 0xFFFFFFFF)) (long go.asyncmap)
    ∷ ci 3 go.neg_eap (short 0xc227)
    ∷ ci 3 (not go.neg_eap && go.neg_chap) (chap (chap_digest go.chap_mdtype))
    ∷ ci 3 (not go.neg_eap && not go.neg_chap && go.neg_upap) (short 0xc023)
    ∷ ci 4 go.neg_lqr (lqr go.lqr_period)
    ∷ ci 13 go.neg_cbcp (char 6)
    ∷ ci 5 go.neg_magicnumber (long go.magicnumber)
    ∷ ci 7 go.neg_pcompression void
    ∷ ci 8 go.neg_accompression void
    ∷ ci 17 go.neg_mrru (short go.mrru)
    ∷ ci 18 go.neg_ssnhf void
    ∷ ci 19 go.neg_endpoint (endp go.endpoint.class go.endpoint.value)
    ∷ []

-- The options that `lcp_ackci` looks for, in its order.
abbrev pub acked : LcpOptions → List Ci
acked go =
    ci 1 (go.neg_mru && not (go.mru == 1500)) (short go.mru)
    ∷ ci 2 (go.neg_asyncmap && not (go.asyncmap == 0xFFFFFFFF)) (long go.asyncmap)
    ∷ ci 3 go.neg_eap (short 0xc227)
    ∷ ci 3 (not go.neg_eap && go.neg_chap) (chap (chap_digest go.chap_mdtype))
    ∷ ci 3 (not go.neg_eap && not go.neg_chap && go.neg_upap) (short 0xc023)
    ∷ ci 4 go.neg_lqr (lqr go.lqr_period)
    ∷ ci 13 go.neg_cbcp (char 6)
    ∷ ci 5 go.neg_magicnumber (long go.magicnumber)
    ∷ ci 7 go.neg_pcompression void
    ∷ ci 8 go.neg_accompression void
    ∷ ci 17 go.neg_mrru (short go.mrru)
    ∷ ci 18 go.neg_ssnhf void
    ∷ ci 19 go.neg_endpoint (endp go.endpoint.class go.endpoint.value)
    ∷ []

unfoldable pub total_len : List Ci → ℕ
total_len [] = 0
total_len (c ∷ cs) = (if c.neg then form_len c.form else 0) + total_len cs

unfoldable pub add_all : List Ci → List ℕ
add_all [] = []
add_all (c ∷ cs) = let rest = add_all cs in if c.neg then add_form c.opt c.form rest else rest

-- `none` for `bad`, and so for what is left over.
unfoldable pub ack_all : List Ci → List ℕ → Option (List ℕ)
ack_all [] p = some p
ack_all (c ∷ cs) p = elim (if c.neg then ack_form c.opt c.form p else some p) [
  | none ↦ none
  | some rest ↦ ack_all cs rest
]

abbrev pub is_end : Option (List ℕ) → Bool
is_end none = false
is_end (some []) = true
is_end (some (b ∷ p)) = false

-- `lcp_cilen`.
unfoldable pub cilen : LcpOptions → ℕ
unfolding total_len
cilen go = total_len (measured go)

-- `lcp_addci`: the bytes that it writes.
unfoldable pub addci : LcpOptions → List ℕ
unfolding add_all
addci go = add_all (added go)

-- `lcp_ackci`: true for a good Ack.
unfoldable pub ackci : LcpOptions → List ℕ → Bool
unfolding ack_all
ackci go p = is_end (ack_all (acked go) p)
