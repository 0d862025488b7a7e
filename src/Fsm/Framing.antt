-- ===== src/Fsm/Framing.antt =====
-- The packets of pppd/fsm.c as bytes: what `fsm_sdata` writes, and what `fsm_input` makes of it.
use ppp.Prelude.{
  ℕ, ◌+◌, ◌-◌, ◌*◌, ◌/◌, ◌%◌, ◌<◌, ◌≤◌, ◌≡◌, ◌⊎◌, refl, true, false, List, [], ◌∷◌, arith, length,
  drop, length-take, take-length, newest,
}
use ppp.Fsm.Defs.{World, Callbacks}
use ppp.Fsm.Send.{headerlen, sdata, fit}
use ppp.Fsm.Input.{input, dispatch, is_down}

module _ {C : Type 0} (cb : Callbacks C) where
  -- A frame is never longer than the peer's MRU and the four bytes of the PPP header, whatever
  -- data are passed, if the MRU has room for a packet's header.
  length-sdata :
      (code id : ℕ) (body : List ℕ) (w : World C)
      → headerlen ≤ cb.peer_mru w.client
      → length (newest (sdata cb code id body w).sent) ≤ cb.peer_mru w.client + 4
  unfolding sdata
  length-sdata code id body w h = ground (arith, length-take (fit cb w.client (length body)) body)

fit-eq :
    {C : Type 0} (cb : Callbacks C) (c : C) (n : ℕ) → n + headerlen ≤ cb.peer_mru c → fit cb c n ≡ n
fit-eq cb c n h = ground arith

bytes : (n : ℕ) → n < 65536 → n / 256 % 256 * 256 + n % 256 ≡ n
bytes n h = omega arith

sub-add : (n : ℕ) → n + headerlen - headerlen ≡ n
sub-add n = omega arith

module _ {C D : Type 0} (cb : Callbacks C) (peer : Callbacks D) where
  -- What one machine sends, a peer whose layer is up reads as the same code, identifier and data,
  -- if the data fit the MRU.
  pub input-sdata :
      (code id : ℕ) (body : List ℕ) (w : World C) (v : World D)
      → code < 256
      → id < 256
      → length body + headerlen ≤ cb.peer_mru w.client
      → length body + headerlen < 65536
      → is_down v.fsm.state ≡ false
      → let packet = drop 4 (newest (sdata cb code id body w).sent) in
        input peer packet v ≡ dispatch peer code id body packet v
  unfolding sdata input
  input-sdata code id body w v hc hi fits small alive =
      rw (fit-eq cb w.client (length body) fits, take-length body)
        (ground
          (arith, take-length body, bytes (length body + headerlen) small, sub-add (length body)))

-- The length that a packet claims in its third and fourth bytes.
abbrev pub claimed : List ℕ → ℕ
claimed (code ∷ id ∷ hi ∷ lo ∷ rest) = hi * 256 + lo
claimed _ = 0

module _ {C : Type 0} (cb : Callbacks C) where
  -- A packet that is shorter than a header, or that claims less than a header or more than it has,
  -- changes nothing, and neither does any packet in `initial` or `starting`.
  input_dropped :
      (packet : List ℕ) (w : World C)
      → ((length packet < headerlen) ⊎ (claimed packet < headerlen))
        ⊎ ((length packet < claimed packet) ⊎ (is_down w.fsm.state ≡ true))
      → input cb packet w ≡ w
  unfolding input
  input_dropped [] w h = refl
  input_dropped (_ ∷ []) w h = refl
  input_dropped (_ ∷ _ ∷ []) w h = refl
  input_dropped (_ ∷ _ ∷ _ ∷ []) w h = refl
  input_dropped (code ∷ id ∷ hi ∷ lo ∷ rest) w h = ground arith
