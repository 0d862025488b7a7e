-- ===== src/Chap/Ends.antt =====
-- How authentications of pppd/chap.c end, and what they leave behind.
use ppp.Prelude.{ℕ, ◌+◌, ◌≡◌, ◌<◌, true, List, [], ◌∷◌, length, newest, take, drop, arith}
use ppp.Chap.Defs.{World, Auth, no_flags, failure_code}
use ppp.Chap.Server.{
  check_response, send_status, check_session, conclude, peer_name, answer_response, handle_response,
  byte_at,
}

module _ {C : Type 0} (auth : Auth C) where
  -- If the report of a failure takes the link down, which clears the flags, the flag for a finished
  -- authentication is set after that all the same.
  done_survives :
      (name : List ℕ) (w : World C)
      → ((v : World C) → (auth.peer_fail v).server.flags ≡ no_flags)
      → w.server.flags.failed ≡ true
      → (conclude auth name w).server.flags ≡ (let f = no_flags in record f { done = true })
  unfolding conclude
  done_survives name w takes_down failed = ground (arith, takes_down w)

  -- While that flag is set, a peer that answers well is not reported to auth.c, whatever the report
  -- would do.
  conclude_unreported :
      (report : ℕ → List ℕ → World C → World C) (name : List ℕ) (w : World C)
      → w.server.flags.done ≡ true
      → conclude (let a = auth in record a { peer_success = report }) name w ≡ conclude auth name w
  unfolding conclude
  conclude_unreported report name w done = ground arith

  -- A Response to a valid Challenge that the check refuses is answered by a Failure, and the peer
  -- is reported as failed and nothing else.
  refused :
      (id n b : ℕ) (rest : List ℕ) (w : World C)
      → w.server.flags.lowerup ≡ true
      → w.server.flags.challenge_valid ≡ true
      → byte_at w.server.challenge 5 ≡ id
      → n < length (b ∷ rest) + 1
      → (check_response auth id (take n (b ∷ rest)) (drop n (b ∷ rest)) w).server.flags.failed
        ≡ true
      → (u : World C) × (handle_response auth id (n ∷ b ∷ rest) w ≡ (
          let v = auth.peer_fail u in
          let ss = v.server in
          let f = ss.flags in record v { server = record ss { flags = record f { done = true } } }))
        × (drop 4 (take 5 (newest u.sent)) ≡ failure_code ∷ [])
  unfolding handle_response answer_response conclude check_session send_status
  refused id n b rest w alive valid same fits failed =
      let raw = drop n (b ∷ rest) in
      let name = peer_name auth raw in
      (
        check_session auth name
            (send_status auth id (check_response auth id (take n (b ∷ rest)) raw w)),
        ground arith,
        ground arith,
      )
