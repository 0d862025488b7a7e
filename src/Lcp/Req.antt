-- ===== src/Lcp/Req.antt =====
-- pppd/lcp.c: `lcp_reqci`, the check of one option of the peer's Configure-Request.
use ppp.Prelude.{
  ℕ, ◌+◌, ◌%◌, Bool, true, not, ◌&&◌, ◌||◌, List, [], ◌∷◌, drop, ltb, ◌==◌, if◌then◌else◌, bit_or,
}
use ppp.Lcp.Options.{LcpOptions, ppp_chap, ppp_lqr, put_short, put_long}
use ppp.Lcp.Request.{chap_digest}
use ppp.Lcp.Nak.{chap_mdtype_d, chap_candigest, and_not, short_of, long_of}

abbrev pub ppp_pap : ℕ
ppp_pap = 0xc023

abbrev pub ppp_eap : ℕ
ppp_eap = 0xc227

abbrev pub minmru : ℕ
minmru = 128

abbrev pub max_endp_len : ℕ
max_endp_len = 20

-- `CONFACK`, `CONFNAK` and `CONFREJ`, as the values of `orc` and `rc`.
pub data Verdict : Type 0 where
  ack nak rej : Verdict

-- What a case of the `switch` leaves: `orc`, the peer's options, and what it has put into the
-- buffer for a Nak.
pub record Checked : Type 0 where
  pub orc : Verdict
  pub ho : LcpOptions
  pub hint : List ℕ

abbrev pub acks : LcpOptions → Checked
acks ho = record { orc = ack; ho = ho; hint = [] }

abbrev pub rejects : LcpOptions → Checked
rejects ho = record { orc = rej; ho = ho; hint = [] }

abbrev pub naks : List ℕ → LcpOptions → Checked
naks hint ho = record { orc = nak; ho = ho; hint = hint }

-- `GETCHAR`.
abbrev pub byte_at : List ℕ → ℕ
byte_at [] = 0
byte_at (b ∷ p) = b

-- The suggestions for an authentication protocol.
abbrev pub hint_of : ℕ → List ℕ
hint_of proto = 3 ∷ 4 ∷ put_short proto []

unfoldable pub hint_chap : LcpOptions → List ℕ
hint_chap ao = 3 ∷ 5 ∷ put_short ppp_chap ((chap_digest ao.chap_mdtype % 256) ∷ [])

-- The cases: `cilen` is the length of the whole option, and `v` is its value.
unfoldable pub check_mru : LcpOptions → ℕ → List ℕ → LcpOptions → Checked
check_mru ao cilen v ho =
    if not ao.neg_mru || not (cilen == 4)
    then rejects ho
    else if ltb (short_of v) minmru
    then naks (1 ∷ 4 ∷ put_short minmru []) ho
    else acks (record ho { neg_mru = true; mru = short_of v })

unfoldable pub check_asyncmap : LcpOptions → ℕ → List ℕ → LcpOptions → Checked
check_asyncmap ao cilen v ho =
    if not ao.neg_asyncmap || not (cilen == 6)
    then rejects ho
    else if not (and_not ao.asyncmap (long_of v) == 0)
    then naks (2 ∷ 6 ∷ put_long (bit_or ao.asyncmap (long_of v)) []) ho
    else acks (record ho { neg_asyncmap = true; asyncmap = long_of v })

unfoldable pub check_pap : LcpOptions → ℕ → LcpOptions → Checked
check_pap ao cilen ho =
    if ho.neg_chap || ho.neg_eap || not (cilen == 4)
    then rejects ho
    else if not ao.neg_upap
    then naks (if ao.neg_eap then hint_of ppp_eap else hint_chap ao) ho
    else acks (record ho { neg_upap = true })

unfoldable pub check_chap : LcpOptions → ℕ → List ℕ → LcpOptions → Checked
check_chap ao cilen v ho =
    let cichar = byte_at (drop 2 v) in
    if ho.neg_upap || ho.neg_eap || not (cilen == 5)
    then rejects ho
    else if not ao.neg_chap
    then naks (if ao.neg_eap then hint_of ppp_eap else hint_of ppp_pap) ho
    else if not (chap_candigest ao.chap_mdtype cichar)
    then naks (hint_chap ao) ho
    else acks (record ho { chap_mdtype = chap_mdtype_d cichar; neg_chap = true })

unfoldable pub check_eap : LcpOptions → ℕ → LcpOptions → Checked
check_eap ao cilen ho =
    if ho.neg_chap || ho.neg_upap || not (cilen == 4)
    then rejects ho
    else if not ao.neg_eap
    then naks (if ao.neg_chap then hint_chap ao else hint_of ppp_pap) ho
    else acks (record ho { neg_eap = true })

unfoldable pub check_auth : LcpOptions → ℕ → List ℕ → LcpOptions → Checked
check_auth ao cilen v ho =
    let cishort = short_of v in
    if ltb cilen 4 || not (ao.neg_upap || ao.neg_chap || ao.neg_eap)
    then rejects ho
    else if cishort == ppp_pap
    then check_pap ao cilen ho
    else if cishort == ppp_chap
    then check_chap ao cilen v ho
    else if cishort == ppp_eap
    then check_eap ao cilen ho
    else naks
        (if ao.neg_eap
          then hint_of ppp_eap
          else if ao.neg_chap
          then hint_chap ao
          else hint_of ppp_pap)
        ho

unfoldable pub check_lqr : LcpOptions → ℕ → List ℕ → LcpOptions → Checked
check_lqr ao cilen v ho =
    if not ao.neg_lqr || not (cilen == 8)
    then rejects ho
    else if not (short_of v == ppp_lqr)
    then naks (4 ∷ 8 ∷ put_short ppp_lqr (put_long ao.lqr_period [])) ho
    else acks ho

-- `magic` is the number that `magic()` gives.
unfoldable pub check_magic : LcpOptions → LcpOptions → ℕ → ℕ → List ℕ → LcpOptions → Checked
check_magic ao go magic cilen v ho =
    let cilong = long_of v in
    if not (ao.neg_magicnumber || go.neg_magicnumber) || not (cilen == 6)
    then rejects ho
    else if go.neg_magicnumber && (cilong == go.magicnumber)
    then naks (5 ∷ 6 ∷ put_long magic []) ho
    else acks (record ho { neg_magicnumber = true; magicnumber = cilong })

unfoldable pub check_pcompression : LcpOptions → ℕ → LcpOptions → Checked
check_pcompression ao cilen ho =
    if not ao.neg_pcompression || not (cilen == 2)
    then rejects ho
    else acks (record ho { neg_pcompression = true })

unfoldable pub check_accompression : LcpOptions → ℕ → LcpOptions → Checked
check_accompression ao cilen ho =
    if not ao.neg_accompression || not (cilen == 2)
    then rejects ho
    else acks (record ho { neg_accompression = true })

unfoldable pub check_mrru : LcpOptions → Bool → ℕ → List ℕ → LcpOptions → Checked
check_mrru ao multilink cilen v ho =
    if not ao.neg_mrru || not multilink || not (cilen == 4)
    then rejects ho
    else acks (record ho { neg_mrru = true; mrru = short_of v })

unfoldable pub check_ssnhf : LcpOptions → Bool → ℕ → LcpOptions → Checked
check_ssnhf ao multilink cilen ho =
    if not ao.neg_ssnhf || not multilink || not (cilen == 2)
    then rejects ho
    else acks (record ho { neg_ssnhf = true })

unfoldable pub check_endpoint : LcpOptions → ℕ → List ℕ → LcpOptions → Checked
check_endpoint ao cilen v ho =
    if not ao.neg_endpoint || ltb cilen 3 || ltb (3 + max_endp_len) cilen
    then rejects ho
    else acks (record ho {
      neg_endpoint = true;
      endpoint = record { class = byte_at v; value = drop 1 v };
    })
