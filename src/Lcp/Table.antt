-- ===== src/Lcp/Table.antt =====
-- The options that we can ask for, in a table, and what a Reject of pppd/lcp.c may have of it.
use ppp.Prelude.{
  ℕ, ◌+◌, ◌%◌, ◌≡◌, Bool, true, false, not, ◌&&◌, List, [], ◌∷◌, ◌++◌, length, ◌==◌, if◌then◌else◌,
}
use ppp.Lcp.Options.{LcpOptions, put_short, put_long}
use ppp.Lcp.Request.{chap_digest}

-- An option of ours as a table has it: whether its flag is set, whether a Configure-Request has it,
-- its bytes in front of others, and what we ask for after it was rejected.
pub record Row : Type 0 where
  pub is_on : Bool
  pub is_sent : Bool
  pub option : List ℕ → List ℕ
  pub without : LcpOptions → LcpOptions

abbrev pub row : Bool → Bool → (List ℕ → List ℕ) → (LcpOptions → LcpOptions) → Row
row is_on is_sent option without = record {
  is_on = is_on;
  is_sent = is_sent;
  option = option;
  without = without;
}

-- Our options in order. The default MRU and the default map can be on, but are not sent; only one of
-- the three authentication protocols is; and who rejects CHAP rejects EAP and PAP with it.
abbrev pub own_table : LcpOptions → List Row
own_table go =
    row go.neg_mru (go.neg_mru && not (go.mru == 1500)) (λ p. 1 ∷ 4 ∷ put_short go.mru p)
      (λ t. record t { neg_mru = false })
    ∷ row go.neg_asyncmap (go.neg_asyncmap && not (go.asyncmap == 0xFFFFFFFF))
        (λ p. 2 ∷ 6 ∷ put_long go.asyncmap p) (λ t. record t { neg_asyncmap = false })
    ∷ row go.neg_eap go.neg_eap (λ p. 3 ∷ 4 ∷ 0xc2 ∷ 0x27 ∷ p) (λ t. record t { neg_eap = false })
    ∷ row (not go.neg_eap && go.neg_chap) (not go.neg_eap && go.neg_chap)
        (λ p. 3 ∷ 5 ∷ 0xc2 ∷ 0x23 ∷ (chap_digest go.chap_mdtype % 256) ∷ p)
        (λ t. record t { neg_chap = false; neg_eap = false; neg_upap = false })
    ∷ row (not go.neg_eap && not go.neg_chap && go.neg_upap)
        (not go.neg_eap && not go.neg_chap && go.neg_upap) (λ p. 3 ∷ 4 ∷ 0xc0 ∷ 0x23 ∷ p)
        (λ t. record t { neg_upap = false })
    ∷ row go.neg_lqr go.neg_lqr (λ p. 4 ∷ 8 ∷ 0xc0 ∷ 0x25 ∷ put_long go.lqr_period p)
        (λ t. record t { neg_lqr = false })
    ∷ row go.neg_cbcp go.neg_cbcp (λ p. 13 ∷ 3 ∷ 6 ∷ p) (λ t. record t { neg_cbcp = false })
    ∷ row go.neg_magicnumber go.neg_magicnumber (λ p. 5 ∷ 6 ∷ put_long go.magicnumber p)
        (λ t. record t { neg_magicnumber = false })
    ∷ row go.neg_pcompression go.neg_pcompression (λ p. 7 ∷ 2 ∷ p)
        (λ t. record t { neg_pcompression = false })
    ∷ row go.neg_accompression go.neg_accompression (λ p. 8 ∷ 2 ∷ p)
        (λ t. record t { neg_accompression = false })
    ∷ row go.neg_mrru go.neg_mrru (λ p. 17 ∷ 4 ∷ put_short go.mrru p)
        (λ t. record t { neg_mrru = false })
    ∷ row go.neg_ssnhf go.neg_ssnhf (λ p. 18 ∷ 2 ∷ p) (λ t. record t { neg_ssnhf = false })
    ∷ row go.neg_endpoint go.neg_endpoint
        (λ p.
          19
          ∷ ((3 + length go.endpoint.value) % 256)
          ∷ (go.endpoint.class % 256)
          ∷ (go.endpoint.value ++ p))
        (λ t. record t { neg_endpoint = false })
    ∷ []

-- The bytes of all rows, one behind the other, and of those that are sent.
abbrev pub bytes_of : List Row → List ℕ
bytes_of [] = []
bytes_of (r ∷ rs) = r.option (bytes_of rs)

abbrev pub sent_bytes : List Row → List ℕ
sent_bytes [] = []
sent_bytes (r ∷ rs) = if r.is_sent then r.option (sent_bytes rs) else sent_bytes rs

abbrev pub without_all : List Row → LcpOptions → LcpOptions
without_all [] t = t
without_all (r ∷ rs) t = without_all rs (r.without t)

-- The first are some of the second, in the same order, each of them on.
pub data Among : List Row → List Row → Type 0 where
  nothing : Among [] []
  skip : {cs rs : List Row} (r : Row) → Among cs rs → Among cs (r ∷ rs)
  take_one : {cs rs : List Row} (r : Row) → r.is_on ≡ true → Among cs rs → Among (r ∷ cs) (r ∷ rs)

pub record Chosen (rs : List Row) (p : List ℕ) (t u : LcpOptions) : Type 0 where
  pub rejected : List Row
  pub among : Among rejected rs
  pub bytes : p ≡ bytes_of rejected
  pub cleared : u ≡ without_all rejected t
