-- ===== src/Lcp/Reject.antt =====
-- pppd/lcp.c: `lcp_rejci`, what becomes of our options when the peer rejects some of them.
use ppp.Prelude.{
  ℕ, ◌+◌, ◌*◌, Bool, true, false, not, ◌&&◌, Option, none, some, List, [], ◌∷◌, length, leb, ◌==◌,
  if◌then◌else◌,
}
use ppp.Lcp.Options.{
  LcpOptions, Form, void, short, chap, long, lqr, char, endp, form_len, ack_bytes, ppp_chap,
  ppp_lqr,
}
use ppp.Lcp.Request.{chap_digest}

-- The options that can be asked for, by their `neg_` fields.
pub data Field : Type 0 where
  mru asyncmap eap chap' upap lqr' cbcp magicnumber pcompression accompression mrru ssnhf endpoint :
      Field

abbrev pub asked : Field → LcpOptions → Bool
asked mru go = go.neg_mru
asked asyncmap go = go.neg_asyncmap
asked eap go = go.neg_eap
asked chap' go = go.neg_chap
asked upap go = go.neg_upap
asked lqr' go = go.neg_lqr
asked cbcp go = go.neg_cbcp
asked magicnumber go = go.neg_magicnumber
asked pcompression go = go.neg_pcompression
asked accompression go = go.neg_accompression
asked mrru go = go.neg_mrru
asked ssnhf go = go.neg_ssnhf
asked endpoint go = go.neg_endpoint

-- What a good rejection of the option clears in `try`.
unfoldable pub clear : Field → LcpOptions → LcpOptions
clear mru t = record t { neg_mru = false }
clear asyncmap t = record t { neg_asyncmap = false }
clear eap t = record t { neg_eap = false }
clear chap' t = record t { neg_chap = false; neg_eap = false; neg_upap = false }
clear upap t = record t { neg_upap = false }
clear lqr' t = record t { neg_lqr = false }
clear cbcp t = record t { neg_cbcp = false }
clear magicnumber t = record t { neg_magicnumber = false }
clear pcompression t = record t { neg_pcompression = false }
clear accompression t = record t { neg_accompression = false }
clear mrru t = record t { neg_mrru = false }
clear ssnhf t = record t { neg_ssnhf = false }
clear endpoint t = record t { neg_endpoint = false }

-- One use of a `REJCI` macro: the field, its condition, the option's number and its value.
pub record Rejectable : Type 0 where
  pub field : Field
  pub neg : Bool
  pub opt : ℕ
  pub form : Form

abbrev pub rej : Field → Bool → ℕ → Form → Rejectable
rej field neg opt form = record { field = field; neg = neg; opt = opt; form = form }

-- The options in the order in which `lcp_rejci` looks for them.
abbrev pub rejectable : LcpOptions → List Rejectable
rejectable go =
    rej mru go.neg_mru 1 (short go.mru)
    ∷ rej asyncmap go.neg_asyncmap 2 (long go.asyncmap)
    ∷ rej eap go.neg_eap 3 (short 0xc227)
    ∷ rej chap' (not go.neg_eap && go.neg_chap) 3 (chap (chap_digest go.chap_mdtype))
    ∷ rej upap (not go.neg_eap && not go.neg_chap && go.neg_upap) 3 (short 0xc023)
    ∷ rej lqr' go.neg_lqr 4 (lqr go.lqr_period)
    ∷ rej cbcp go.neg_cbcp 13 (char 6)
    ∷ rej magicnumber go.neg_magicnumber 5 (long go.magicnumber)
    ∷ rej pcompression go.neg_pcompression 7 void
    ∷ rej accompression go.neg_accompression 8 void
    ∷ rej mrru go.neg_mrru 17 (short go.mrru)
    ∷ rej ssnhf go.neg_ssnhf 18 void
    ∷ rej endpoint go.neg_endpoint 19 (endp go.endpoint.class go.endpoint.value)
    ∷ []

-- The packet does not go on with the option, has it with another value, or has it.
pub data Found : Type 0 where
  absent bad : Found
  matched : List ℕ → Found

-- The value behind the type and the length; `none` if it is not the one that we sent.
unfoldable pub match_value : Form → List ℕ → Option (List ℕ)
match_value void p = some p
match_value (short v) (hi ∷ lo ∷ p) = if hi * 256 + lo == v then some p else none
match_value (chap v) (hi ∷ lo ∷ d ∷ p) =
    if hi * 256 + lo == ppp_chap && d == v then some p else none
match_value (long v) (b3 ∷ b2 ∷ b1 ∷ b0 ∷ p) =
    if b3 * 16777216 + b2 * 65536 + b1 * 256 + b0 == v then some p else none
match_value (lqr v) (hi ∷ lo ∷ b3 ∷ b2 ∷ b1 ∷ b0 ∷ p) =
    if hi * 256 + lo == ppp_lqr && b3 * 16777216 + b2 * 65536 + b1 * 256 + b0 == v
    then some p
    else none
match_value (char v) (c ∷ p) = if c == v then some p else none
match_value (endp class value) (c ∷ p) = if c == class then ack_bytes value p else none
match_value _ _ = none

abbrev pub found : Option (List ℕ) → Found
found none = bad
found (some p) = matched p

-- The macros `REJCI…`, under a condition that holds.
unfoldable pub rej_form : ℕ → Form → List ℕ → Found
unfolding match_value
rej_form opt f (t ∷ l ∷ p) =
    if leb (form_len f) (length p + 2) && l == form_len f && t == opt
    then found (match_value f p)
    else absent
rej_form opt f _ = absent

unfoldable pub rej_all : List Rejectable → List ℕ → LcpOptions → Option LcpOptions
rej_all [] [] t = some t
rej_all [] (b ∷ p) t = none
rej_all (r ∷ rs) p t = elim (if r.neg then rej_form r.opt r.form p else absent) [
  | absent ↦ rej_all rs p t
  | bad ↦ none
  | matched q ↦ rej_all rs q (clear r.field t)
]

abbrev pub settle_reject : Bool → LcpOptions → Option LcpOptions → Bool × LcpOptions
settle_reject is_open go none = (false, go)
settle_reject is_open go (some t) = (true, if is_open then go else t)

-- `lcp_rejci`: whether the Reject was good, and our options after it. `is_open` says that the
-- machine is in `opened`.
unfoldable pub rejci : Bool → LcpOptions → List ℕ → Bool × LcpOptions
unfolding rej_all
rejci is_open go p = settle_reject is_open go (rej_all (rejectable go) p go)
