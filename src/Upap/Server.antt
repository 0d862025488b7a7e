-- ===== src/Upap/Server.antt =====
-- The server's end of pppd/upap.c: requests read back, users let in and kept out.
use ppp.Prelude.{
  ℕ, ◌+◌, ◌*◌, ◌-◌, ◌/◌, ◌%◌, ◌≡◌, ◌<◌, some, List, ◌∷◌, ◌++◌, arith, ◌∙◌, length, drop,
  length-append, take-append, drop-append, take-length, newest,
}
use ppp.Upap.Defs.{ServerState, World, Auth, authreq, headerlen, packet}
use ppp.Upap.Ops.{
  sauthreq, input, rauthreq, rauthreq_at, answer_parsed, dispatch, answer_request, parse_request,
}

abbrev request_body : List ℕ → List ℕ → List ℕ
request_body user passwd = (length user % 256) ∷ (user ++ ((length passwd % 256) ∷ passwd))

parse_request_lem :
    (user passwd : List ℕ)
    → length user < 256
    → length passwd < 256
    → parse_request (request_body user passwd) ≡ some (user, passwd)
unfolding parse_request
parse_request_lem user passwd hu hp =
    rw
      (
        small (length user) hu,
        small (length passwd) hp,
        take-append user ((length passwd) ∷ passwd),
        drop-append user ((length passwd) ∷ passwd),
      )
      (ground (arith, length-append user ((length passwd) ∷ passwd), take-length passwd))
  where
    small : (n : ℕ) → n < 256 → n % 256 ≡ n
    small n h = omega arith

module _ {D : Type 0} (auth : Auth D) where
  input-packet :
      (code id : ℕ) (body : List ℕ) (v : World D)
      → length body + headerlen < 65536
      → input auth (drop 4 (packet code id body)) v ≡ dispatch auth (code % 256) (id % 256) body v
  unfolding input
  input-packet code id body v h =
      let n : ℕ = length body + headerlen in
      let e : n / 256 % 256 * 256 + n % 256 ≡ n = omega arith in
      let e' : n - headerlen ≡ length body = omega arith in
      rw (e, e', take-length body) (ground (arith, e))

  rauthreq-listen :
      (id : ℕ) (body user passwd : List ℕ) (v : World D)
      → v.upap.serverstate ≡ ServerState.listen
      → parse_request body ≡ some (user, passwd)
      → rauthreq auth id body v ≡ answer_request auth id user passwd v
  unfolding rauthreq rauthreq_at answer_parsed
  rauthreq-listen id body user passwd v s e = rw (s, e)

module _ {C D : Type 0} (auth : Auth D) where
  -- The request that one end sends is read by a listening server as the same user name and
  -- password under the same identifier, if each of the two has fewer than 256 bytes.
  pub input-sauthreq :
      (w : World C) (v : World D)
      → length w.upap.user < 256
      → length w.upap.passwd < 256
      → v.upap.serverstate ≡ ServerState.listen
      → input auth (drop 4 (newest (sauthreq w).sent)) v
        ≡ answer_request auth ((w.upap.id + 1) % 256) w.upap.user w.upap.passwd v
  unfolding sauthreq dispatch
  input-sauthreq w v hu hp s =
      let user = w.upap.user in
      let passwd = w.upap.passwd in
      let id : ℕ = (w.upap.id + 1) % 256 in
      let body = request_body user passwd in
      input-packet auth authreq id body v
        (omega (arith, length-append user ((length passwd % 256) ∷ passwd)))
      ∙ rw (mod_twice (w.upap.id + 1))
          (rauthreq-listen auth id body user passwd v s (parse_request_lem user passwd hu hp))
    where
      mod_twice : (n : ℕ) → n % 256 % 256 ≡ n % 256
      mod_twice n = omega arith
