-- ===== src/Lcp/Rejected.antt =====
-- What a good Reject must look like: some of our options, in our order, with our values.
use ppp.Prelude.{
  ℕ, AllBytes, ◌≡◌, Bool, true, false, Option, none, some, List, [], ◌∷◌, refl, if◌then◌else◌,
  arith, sym,
}
use ppp.Lcp.Options.{LcpOptions, Form, void, short, chap, long, lqr, char, endp, add_form, ack_form}
use ppp.Lcp.Request.{addci}
use ppp.Lcp.Table.{Row, row, own_table, sent_bytes, nothing, skip, take_one, Chosen}
use ppp.Lcp.Agreement.{AllBytes-rest, ack_form_inv}
use ppp.Lcp.Reject.{
  clear, Rejectable, rejectable, Found, absent, bad, matched, match_value, rej_form, rej_all,
  settle_reject, rejci,
}

own_table-addci : (go : LcpOptions) → sent_bytes (own_table go) ≡ addci go
unfolding addci
own_table-addci go = refl

abbrev row_of : Rejectable → Bool → Row
row_of r is_sent = row r.neg is_sent (add_form r.opt r.form) (clear r.field)

rej_form-ack_form :
    (opt : ℕ) (f : Form) (p q : List ℕ) → rej_form opt f p ≡ matched q → ack_form opt f p ≡ some q
unfolding rej_form match_value ack_form
rej_form-ack_form opt f [] q e = cc
rej_form-ack_form opt f (_ ∷ []) q e = cc
rej_form-ack_form opt void (t ∷ l ∷ p) q e = ground arith
rej_form-ack_form opt (short v) (t ∷ l ∷ []) q e = ground arith
rej_form-ack_form opt (short v) (t ∷ l ∷ _ ∷ []) q e = ground arith
rej_form-ack_form opt (short v) (t ∷ l ∷ hi ∷ lo ∷ p) q e = ground arith
rej_form-ack_form opt (chap v) (t ∷ l ∷ []) q e = ground arith
rej_form-ack_form opt (chap v) (t ∷ l ∷ _ ∷ []) q e = ground arith
rej_form-ack_form opt (chap v) (t ∷ l ∷ _ ∷ _ ∷ []) q e = ground arith
rej_form-ack_form opt (chap v) (t ∷ l ∷ hi ∷ lo ∷ d ∷ p) q e = ground arith
rej_form-ack_form opt (long v) (t ∷ l ∷ []) q e = ground arith
rej_form-ack_form opt (long v) (t ∷ l ∷ _ ∷ []) q e = ground arith
rej_form-ack_form opt (long v) (t ∷ l ∷ _ ∷ _ ∷ []) q e = ground arith
rej_form-ack_form opt (long v) (t ∷ l ∷ _ ∷ _ ∷ _ ∷ []) q e = ground arith
rej_form-ack_form opt (long v) (t ∷ l ∷ b3 ∷ b2 ∷ b1 ∷ b0 ∷ p) q e = ground arith
rej_form-ack_form opt (lqr v) (t ∷ l ∷ []) q e = ground arith
rej_form-ack_form opt (lqr v) (t ∷ l ∷ _ ∷ []) q e = ground arith
rej_form-ack_form opt (lqr v) (t ∷ l ∷ _ ∷ _ ∷ []) q e = ground arith
rej_form-ack_form opt (lqr v) (t ∷ l ∷ _ ∷ _ ∷ _ ∷ []) q e = ground arith
rej_form-ack_form opt (lqr v) (t ∷ l ∷ _ ∷ _ ∷ _ ∷ _ ∷ []) q e = ground arith
rej_form-ack_form opt (lqr v) (t ∷ l ∷ _ ∷ _ ∷ _ ∷ _ ∷ _ ∷ []) q e = ground arith
rej_form-ack_form opt (lqr v) (t ∷ l ∷ hi ∷ lo ∷ b3 ∷ b2 ∷ b1 ∷ b0 ∷ p) q e = ground arith
rej_form-ack_form opt (char v) (t ∷ l ∷ []) q e = ground arith
rej_form-ack_form opt (char v) (t ∷ l ∷ c ∷ p) q e = ground arith
rej_form-ack_form opt (endp class value) (t ∷ l ∷ []) q e = ground arith
rej_form-ack_form opt (endp class value) (t ∷ l ∷ c ∷ p) q e = ground arith

-- A table with a row for each use of a macro.
data Matches : List Rejectable → List Row → Type 0 where
  no_rows : Matches [] []
  more_rows :
      {rs : List Rejectable} {ts : List Row} (r : Rejectable) (b : Bool)
      → Matches rs ts
      → Matches (r ∷ rs) (row_of r b ∷ ts)

rej_all_inv :
    {rs : List Rejectable} {ts : List Row} (m : Matches rs ts) (p : List ℕ) (t u : LcpOptions)
    → AllBytes p
    → rej_all rs p t ≡ some u
    → Chosen ts p t u
unfolding rej_all
rej_all_inv no_rows [] t u h e = record {
  rejected = [];
  among = nothing;
  bytes = refl;
  cleared = ground arith;
}
rej_all_inv no_rows (b ∷ p) t u h e = cc
rej_all_inv (more_rows {rs} {ts} r b k) p t u h e =
    step (if r.neg then rej_form r.opt r.form p else absent) refl e (rej_all_inv k)
  where
    step :
        (m : Found)
        → (if r.neg then rej_form r.opt r.form p else absent) ≡ m
        → elim m [
          | absent ↦ rej_all rs p t
          | bad ↦ none
          | matched q ↦ rej_all rs q (clear r.field t)
        ]
          ≡ some u
        → ((q : List ℕ) (s v : LcpOptions) → AllBytes q → rej_all rs q s ≡ some v → Chosen ts q s v)
        → Chosen (row_of r b ∷ ts) p t u
    step absent c e ih =
        let k = ih p t u h e in
        record {
          rejected = k.rejected;
          among = skip (row_of r b) k.among;
          bytes = k.bytes;
          cleared = k.cleared;
        }
    step bad c e ih = cc
    step (matched q) c e ih =
        let on : r.neg ≡ true = ground arith in
        let ack : ack_form r.opt r.form p ≡ some q =
          rej_form-ack_form r.opt r.form p q (ground (arith, c, on)) in
        let form : p ≡ add_form r.opt r.form q = ack_form_inv r.opt r.form p q h ack in
        let k = ih q (clear r.field t) u (AllBytes-rest r.opt r.form q (rw (sym form) h)) e in
        record {
          rejected = row_of r b ∷ k.rejected;
          among = take_one (row_of r b) on k.among;
          bytes = rw (sym k.bytes) form;
          cleared = k.cleared;
        }

rejectable-Matches : (go : LcpOptions) → Matches (rejectable go) (own_table go)
unfolding clear
rejectable-Matches go = more_rows _ _ (
    more_rows _ _ (
      more_rows _ _ (
        more_rows _ _ (
          more_rows _ _ (
            more_rows _ _ (
              more_rows _ _ (
                more_rows _ _ (
                  more_rows _ _ (
                    more_rows _ _ (more_rows _ _ (more_rows _ _ (more_rows _ _ (no_rows)))))))))))))

-- The rows of our table that are sent are, one behind the other, the options of the
-- Configure-Request. While LCP is not open, a Reject of bytes is good only if it is, one behind the
-- other in our order and with our values, some rows of that table that are on, which may be a
-- default MRU or map that was not sent; and then our options after it are those before, less what
-- the table says of each of these rows.
pub rejci-Chosen :
    (go : LcpOptions) (p : List ℕ)
    → AllBytes p
    → (rejci false go p).0 ≡ true
    → (sent_bytes (own_table go) ≡ addci go) × Chosen (own_table go) p go (rejci false go p).1
unfolding rejci
rejci-Chosen go p h good = (own_table-addci go, by_result (rej_all (rejectable go) p go) refl good)
  where
    by_result :
        (r : Option LcpOptions)
        → rej_all (rejectable go) p go ≡ r
        → (settle_reject false go r).0 ≡ true
        → Chosen (own_table go) p go (settle_reject false go r).1
    by_result none e g = cc
    by_result (some u) e g = rej_all_inv (rejectable-Matches go) p go u h e
