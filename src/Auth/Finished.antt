-- ===== src/Auth/Finished.antt =====
-- pppd/auth.c: the link is kept as long as a network protocol uses it.
use ppp.Prelude.{
  ℕ, zero, suc, ◌+◌, ◌≡◌, refl, ap, ◌∙◌, ℤ, pos, is_zero, Bool, true, false, ◌&&◌, Option, none,
  some, List, [], ◌∷◌, if◌then◌else◌, arith,
}
use ppp.Auth.Defs.{World, Env, Protent, no_networks}
use ppp.Auth.Established.{is_np, open_np, open_networks, continue_networks}
use ppp.Auth.Networks.{np_finished}

module _ {C : Type 0} where
  -- The opening of a protocol leaves the count to `continue_networks`.
  abbrev pub KeepsCount : Option (World C → World C) → Type 0
  KeepsCount none = Unit
  KeepsCount (some f) = (w : World C) → (f w).num_np_open ≡ w.num_np_open

  abbrev pub AllKeepCount : List (Protent C) → Type 0
  AllKeepCount [] = Unit
  AllKeepCount (p ∷ ps) = KeepsCount p.open_proto × AllKeepCount ps

  abbrev is_some : Option (World C → World C) → Bool
  is_some none = false
  is_some (some f) = true

  -- The network protocols that are enabled and can be opened.
  unfoldable pub users : List (Protent C) → ℕ
  users [] = 0
  users (p ∷ ps) =
      (if is_np p.protocol && p.enabled_flag && is_some p.open_proto then 1 else 0) + users ps

  open_np-counts :
      (f : Option (World C → World C)) (w : World C) (n : ℕ)
      → KeepsCount f
      → w.num_np_open ≡ pos n
      → (open_np f w).num_np_open ≡ pos (n + (if is_some f then 1 else 0))
  open_np-counts none w n k e = ground (arith, e)
  open_np-counts (some f) w n k e = ground (arith, e, k w)

module _ {C : Type 0} (env : Env C) where
  open_networks-counts :
      (ps : List (Protent C)) (w : World C) (n : ℕ)
      → AllKeepCount ps
      → w.num_np_open ≡ pos n
      → (open_networks env ps w).num_np_open ≡ pos (n + users ps)
  unfolding open_networks users
  open_networks-counts [] w n k e = ground (arith, e)
  open_networks-counts (p ∷ ps) w n k e =
      let one = if is_np p.protocol && p.enabled_flag && is_some p.open_proto then 1 else 0 in
      let v = if is_np p.protocol && p.enabled_flag then open_np p.open_proto w else w in
      let counts : v.num_np_open ≡ pos (n + one) =
        ground (arith, open_np-counts p.open_proto w n (k.0) e, e) in
      open_networks-counts ps v (n + one) (k.1) counts ∙ ap pos (omega arith)

  unfoldable pub finishes : ℕ → World C → World C
  unfolding np_finished
  finishes zero w = w
  finishes (suc n) w = finishes n (np_finished env w)

  np_finished-more :
      (w : World C) (n : ℕ) (z : ℤ)
      → w.num_np_open ≡ z
      → z ≡ pos (suc (suc n))
      → (np_finished env w).num_np_open ≡ pos (suc n)
  unfolding np_finished
  np_finished-more w n z e k = rw (e, k) refl

  finishes_lem :
      (n : ℕ) (w : World C) → w.num_np_open ≡ pos (suc n) → (finishes n w).num_np_open ≡ pos 1
  unfolding finishes
  finishes_lem zero w e = e
  finishes_lem (suc n) w e = finishes_lem n (np_finished env w) (np_finished-more w n _ e refl)

  np_finished-last :
      (w : World C)
      → w.num_np_open ≡ pos 1
      → np_finished env w ≡ env.lcp_close no_networks (record w { num_np_open = pos 0 })
  unfolding np_finished
  np_finished-last w e = rw e refl

  -- No protocol counts as open, the opening of one leaves the count alone, and there are `n + 1`
  -- enabled network protocols that can be opened. Then after `continue_networks`, `n` of them may
  -- finish and the count is 1; when one more finishes, the link is closed.
  pub continue_networks-finishes :
      (n : ℕ) (w : World C)
      → AllKeepCount env.protocols
      → w.num_np_open ≡ pos 0
      → users env.protocols ≡ suc n
      → let v = finishes n (continue_networks env w) in
        (v.num_np_open ≡ pos 1)
        × (np_finished env v ≡ env.lcp_close no_networks (record v { num_np_open = pos 0 }))
  unfolding continue_networks
  continue_networks-finishes n w k e count =
      let v = open_networks env env.protocols w in
      let opened : v.num_np_open ≡ pos (suc n) =
        open_networks-counts env.protocols w 0 k e ∙ ap pos (omega (arith, count)) in
      let some_open : is_zero v.num_np_open ≡ false = ap is_zero opened in
      let kept : (continue_networks env w).num_np_open ≡ pos (suc n) = rw some_open opened in
      let one = finishes_lem n (continue_networks env w) kept in
      (one, np_finished-last (finishes n (continue_networks env w)) one)
