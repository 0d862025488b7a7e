-- ===== src/Auth/Owed.antt =====
-- pppd/auth.c: the reports that are owed before the network phase.
use ppp.Prelude.{
  ℕ, ◌≡◌, ◌≤◌, ◌<◌, refl, Bool, true, false, ◌&&◌, ◌||◌, Option, none, some, List, [], ◌∷◌, ltb,
  arith, Bool-cases, inl, inr,
}
use ppp.Auth.Defs.{World, Env, authenticate, new_phase}
use ppp.Auth.Established.{ask_peer}
use ppp.Auth.Reports.{auth_peer_success, auth_withpeer_success, auth_peer_fail, auth_withpeer_fail}
use ppp.Auth.Masks.{Method, is_none, agreed, clear}

-- A report of an authentication protocol.
pub data Report : Type 0 where
  peer_success : ℕ → ℕ → List ℕ → Report
  withpeer_success : ℕ → ℕ → Report
  peer_fail withpeer_fail : Report

-- What a report clears: of the peer's method, and of ours.
abbrev pub clear_peer : Report → Option Method → Option Method
clear_peer (peer_success protocol flavor name) a = clear protocol a
clear_peer _ a = a

abbrev pub clear_withpeer : Report → Option Method → Option Method
clear_withpeer (withpeer_success protocol flavor) b = clear protocol b
clear_withpeer _ b = b

-- Some report says that the peer has authenticated himself by the method `a`, if there is one.
unfoldable pub peer_done : Option Method → List Report → Bool
peer_done a [] = is_none a
peer_done a (r ∷ rs) = is_none (clear_peer r a) || peer_done a rs

-- The same of us.
unfoldable pub withpeer_done : Option Method → List Report → Bool
withpeer_done b [] = is_none b
withpeer_done b (r ∷ rs) = is_none (clear_withpeer r b) || withpeer_done b rs

pub peer_done_none :
    (a : Option Method) (rs : List Report) → is_none a ≡ true → peer_done a rs ≡ true
unfolding peer_done
peer_done_none a [] e = e
peer_done_none a (peer_success p flavor name ∷ rs) e = ground arith
peer_done_none a (withpeer_success p flavor ∷ rs) e = ground arith
peer_done_none a (peer_fail ∷ rs) e = ground arith
peer_done_none a (withpeer_fail ∷ rs) e = ground arith

pub withpeer_done_none :
    (b : Option Method) (rs : List Report) → is_none b ≡ true → withpeer_done b rs ≡ true
unfolding withpeer_done
withpeer_done_none b [] e = e
withpeer_done_none b (peer_success p flavor name ∷ rs) e = ground arith
withpeer_done_none b (withpeer_success p flavor ∷ rs) e = ground arith
withpeer_done_none b (peer_fail ∷ rs) e = ground arith
withpeer_done_none b (withpeer_fail ∷ rs) e = ground arith

pub clear_kept : (p : ℕ) (a : Option Method) → is_none (clear p a) ≡ false → clear p a ≡ a
clear_kept p none h = refl
clear_kept p (some m) h = ground arith

-- A method that a report does not clear stays as it is.
pub peer_kept :
    (r : Report) (a : Option Method) (rs : List Report)
    → (is_none (clear_peer r a) || peer_done a rs)
      ≡ (is_none (clear_peer r a) || peer_done (clear_peer r a) rs)
peer_kept (peer_success p flavor name) a rs = elim (Bool-cases (is_none (clear p a))) [
  | inl gone ↦ rw gone refl
  | inr kept ↦ rw (clear_kept p a kept) refl
]
peer_kept (withpeer_success p flavor) a rs = refl
peer_kept peer_fail a rs = refl
peer_kept withpeer_fail a rs = refl

pub withpeer_kept :
    (r : Report) (b : Option Method) (rs : List Report)
    → (is_none (clear_withpeer r b) || withpeer_done b rs)
      ≡ (is_none (clear_withpeer r b) || withpeer_done (clear_withpeer r b) rs)
withpeer_kept (withpeer_success p flavor) b rs = elim (Bool-cases (is_none (clear p b))) [
  | inl gone ↦ rw gone refl
  | inr kept ↦ rw (clear_kept p b kept) refl
]
withpeer_kept (peer_success p flavor name) b rs = refl
withpeer_kept peer_fail b rs = refl
withpeer_kept withpeer_fail b rs = refl

pub none_first :
    (a b : Option Method) (rs : List Report)
    → ((is_none a || peer_done a rs) && (is_none b || withpeer_done b rs))
      ≡ (peer_done a rs && withpeer_done b rs)
none_first a b rs = ground (arith, peer_done_none a rs, withpeer_done_none b rs)

-- One step of the count, when all is done and when it is not.
pub all_done :
    (n m l : ℕ) (x p y q : Bool) → n < m → m ≤ l → x && y ≡ true → ltb n l ≡ ((x || p) && (y || q))
all_done n m l x p y q h k e = ground arith

pub still_owed :
    (n m l : ℕ) (x p y q : Bool)
    → m ≡ n
    → ltb m l ≡ (p && q)
    → (x ≡ true → p ≡ true)
    → (y ≡ true → q ≡ true)
    → ltb n l ≡ ((x || p) && (y || q))
still_owed n m l x p y q h k e f = ground arith

module _ {C : Type 0} (env : Env C) where
  -- The methods that the options of LCP ask of the peer and of us, when authentication starts.
  unfoldable pub peer_method : World C → Option Method
  unfolding new_phase
  peer_method w = agreed (env.gotoptions (new_phase env authenticate w).client)

  unfoldable pub own_method : World C → Option Method
  unfolding new_phase ask_peer
  own_method w =
      let v = new_phase env authenticate w in
      agreed (env.hisoptions (ask_peer env (env.gotoptions v.client) v).1.client)

  unfoldable pub report : Report → World C → World C
  unfolding auth_peer_success auth_withpeer_success auth_peer_fail auth_withpeer_fail
  report (peer_success protocol flavor name) w = auth_peer_success env protocol flavor name w
  report (withpeer_success protocol flavor) w = auth_withpeer_success env protocol flavor w
  report peer_fail w = auth_peer_fail env w
  report withpeer_fail w = auth_withpeer_fail env w

  unfoldable pub reports : List Report → World C → World C
  unfolding report
  reports [] w = w
  reports (r ∷ rs) w = reports rs (report r w)
