-- ===== src/Chap/Messages.antt =====
-- The packets of pppd/chap.c as bytes: a Challenge and a Response, as the other end reads them.
use ppp.Prelude.{
  ℕ, suc, ◌+◌, ◌-◌, ◌*◌, ◌/◌, ◌%◌, ◌≡◌, ◌<◌, ◌∙◌, true, List, [], ◌∷◌, ◌++◌, arith, length, drop,
  take-append, drop-append, take-length, length-append,
}
use ppp.Chap.Defs.{World, Auth, challenge_code, response_code, headerlen, packet}
use ppp.Chap.Server.{
  check_response, send_status, check_session, conclude, answer_response, handle_response, byte_at,
  peer_name,
}
use ppp.Chap.Client.{respond, send_response, dispatch, input}

abbrev pub prefixed : List ℕ → List ℕ → List ℕ
prefixed value name = (length value % 256) ∷ (value ++ name)

module _ {C : Type 0} (auth : Auth C) where
  input-packet :
      (code id : ℕ) (body : List ℕ) (w : World C)
      → length body + headerlen < 65536
      → input auth (drop 4 (packet code id body)) w ≡ dispatch auth code (id % 256) body w
  unfolding input
  input-packet code id body w h =
      let n : ℕ = length body + headerlen in
      let e : n / 256 % 256 * 256 + n % 256 ≡ n = omega arith in
      let e' : n - headerlen ≡ length body = omega arith in
      rw (e, e', take-length body) (ground (arith, e))

  -- What a client makes of a Challenge with the given value and name.
  pub challenge-answered :
      (id : ℕ) (value name : List ℕ) (w : World C)
      → 0 < length value
      → length value < 256
      → length value + length name < 65000
      → w.client.flags.lowerup ≡ true
      → w.client.flags.started ≡ true
      → input auth (drop 4 (packet challenge_code id (prefixed value name))) w
        ≡ send_response auth (id % 256) (length value) (value ++ name) w
  unfolding dispatch respond
  challenge-answered id [] name w pos small fits up st = absurd (omega arith)
  challenge-answered id (b ∷ bs) name w pos small fits up st =
      input-packet challenge_code id (prefixed (b ∷ bs) name) w
        (omega (arith, length-append bs name))
      ∙ ground (arith, length-append bs name)

  -- What a server makes of a Response to its last Challenge.
  pub response-checked :
      (id : ℕ) (value name : List ℕ) (w : World C)
      → 0 < length value
      → length value < 256
      → length value + length name < 65000
      → w.server.flags.lowerup ≡ true
      → w.server.flags.challenge_valid ≡ true
      → byte_at w.server.challenge 5 ≡ id % 256
      → input auth (drop 4 (packet response_code id (prefixed value name))) w
        ≡ conclude auth (peer_name auth name) (
            check_session auth
              (peer_name auth name)
              (send_status auth (id % 256) (check_response auth (id % 256) value name w)))
  unfolding dispatch handle_response answer_response
  response-checked id [] name w pos small fits up valid same = absurd (omega arith)
  response-checked id (b ∷ bs) name w pos small fits up valid same =
      input-packet response_code id (prefixed (b ∷ bs) name) w
        (omega (arith, length-append bs name))
      ∙ rw (valid, up, small_mod (suc (length bs)) small, take-append bs name, drop-append bs name)
          (ground (arith, length-append bs name))
    where
      small_mod : (n : ℕ) → n < 256 → n % 256 ≡ n
      small_mod n h = omega arith
