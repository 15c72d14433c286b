-- ===== src/Ap/Order.antt =====
-- ap/shannon.go: packets that one end sends are received by the other, all of them and in their order.
use go_librespot_termux.Prelude.{
  ℕ, zero, suc, ◌+◌, ◌%◌, ◌^◌, ◌≤◌, ◌≡◌, refl, sym, ap, ap₂, ◌∙◌, List, [], ◌∷◌, ◌++◌, append_assoc,
  append-nil, none, ltb, le→ltb-false, if_false, length, map,
}
use go_librespot_termux.Ap.{
  Cipher, CipherLaws, Sent, sent, Received, received, packet, ShannonConn, write_sealed,
  send_packet, receive_packet,
}
use go_librespot_termux.Ap.Framing.{bytes, frame, Receives, receive_packet-Receives}

-- Payloads whose length fits into two bytes.
pub data AllSmall : List (ℕ × List ℕ) → Type 0 where
  no_packet : AllSmall []
  small :
      {p : ℕ × List ℕ} {ps : List (ℕ × List ℕ)}
      → length p.1 ≤ 65535
      → AllSmall ps
      → AllSmall (p ∷ ps)

module _ (C : Cipher) where
  unfoldable pub send_all : List (ℕ × List ℕ) → ShannonConn C → ShannonConn C
  send_all [] c = c
  send_all ((t, p) ∷ ps) c = send_all ps (send_packet C t p none none c).0

  unfoldable pub receive_all : ℕ → ShannonConn C → ShannonConn C × List Received
  receive_all zero c = (c, [])
  receive_all (suc n) c =
      let (c', x) = receive_packet C c in let (c'', xs) = receive_all n c' in (c'', x ∷ xs)

  -- The nonce is set before a packet is sealed.
  abbrev ready : ShannonConn C → C.State
  ready c = C.nonce_u32 c.send_nonce c.send_cipher

  sealed : ℕ → List ℕ → ShannonConn C → List ℕ
  sealed t p c = frame C (packet t p) (ready c)

  send_packet-fine :
      (t : ℕ) (p : List ℕ) (c : ShannonConn C)
      → length p ≤ 65535
      → send_packet C t p none none c ≡ (
        record c {
          outgoing = c.outgoing ++ sealed t p c;
          send_nonce = (c.send_nonce + 1) % 2 ^ 32;
          send_cipher = (C.finish (C.encrypt (packet t p) (ready c)).1).1;
        },
        sent,
      )
  unfolding send_packet write_sealed sealed
  send_packet-fine t p c h = if_false (ltb 65535 (length p)) _ _ (le→ltb-false 65535 (length p) h)

  frames : List (ℕ × List ℕ) → ShannonConn C → List ℕ
  frames [] c = []
  frames ((t, p) ∷ ps) c = sealed t p c ++ frames ps (send_packet C t p none none c).0

  send_all-frames :
      (ps : List (ℕ × List ℕ)) (c : ShannonConn C)
      → AllSmall ps
      → (send_all ps c).outgoing ≡ c.outgoing ++ frames ps c
  unfolding send_all frames
  send_all-frames [] c no_packet = sym (append-nil c.outgoing)
  send_all-frames ((t, p) ∷ ps) c (small h hs) =
      let c' = (send_packet C t p none none c).0 in
      send_all-frames ps c' hs
      ∙ (ap (λ (x : ShannonConn C × Sent). x.0.outgoing ++ frames ps c') (send_packet-fine t p c h)
          ∙ append_assoc c.outgoing (sealed t p c) (frames ps c'))

  module _ (L : CipherLaws C) where
    open L use {key}

    -- One end's sending half and the other's receiving half.
    pub record InSync (s r : ShannonConn C) : Type 0 where
      pub same_key : key s.send_cipher ≡ key r.recv_cipher
      pub same_nonce : s.send_nonce ≡ r.recv_nonce

    after-InSync :
        (t : ℕ) (p rest : List ℕ) (s r : ShannonConn C)
        → length p ≤ 65535
        → InSync s r
        → Receives C L t p rest r
        → InSync (send_packet C t p none none s).0 (receive_packet C r).0
    after-InSync t p rest s r h y v =
        let e = send_packet-fine t p s h in
        let k = C.encrypt (packet t p) (ready s) in
        record {
          same_key =
              ap (λ (x : ShannonConn C × Sent). key x.0.send_cipher) e
              ∙ (L.key_finish k.1
                  ∙ (L.key_encrypt (packet t p) (ready s)
                      ∙ (L.key_nonce s.send_nonce s.send_cipher ∙ (y.same_key ∙ sym v.same_key))));
          same_nonce =
              ap (λ (x : ShannonConn C × Sent). x.0.send_nonce) e
              ∙ (ap (λ n. (n + 1) % 2 ^ 32) y.same_nonce ∙ sym v.nonce);
        }

    Delivers : List (ℕ × List ℕ) → List ℕ → ShannonConn C → ShannonConn C → Type 0
    Delivers ps rest s r =
        ((receive_all (length ps) r).1 ≡ map (λ (p : ℕ × List ℕ). received p.0 p.1) ps)
        × (bytes (receive_all (length ps) r).0.wire ≡ rest)
        × InSync (send_all ps s) (receive_all (length ps) r).0

    frames-Delivers :
        (ps : List (ℕ × List ℕ)) (rest : List ℕ) (s r : ShannonConn C)
        → AllSmall ps
        → InSync s r
        → bytes r.wire ≡ frames ps s ++ rest
        → Delivers ps rest s r
    unfolding Delivers send_all receive_all frames sealed
    frames-Delivers [] rest s r no_packet y e = (refl, e, y)
    frames-Delivers ((t, p) ∷ ps) rest s r (small h hs) y e =
        let s' = (send_packet C t p none none s).0 in
        let more = frames ps s' ++ rest in
        let start = ap (frame C (packet t p)) (
          L.nonce_keyed s.send_nonce s.send_cipher r.recv_cipher y.same_key
          ∙ ap (λ n. C.nonce_u32 n r.recv_cipher) y.same_nonce) in
        let v =
          receive_packet-Receives C L t p more r h
            (e ∙ (append_assoc (sealed t p s) (frames ps s') rest ∙ ap (λ x. x ++ more) start)) in
        let again =
          frames-Delivers ps rest s' (receive_packet C r).0 hs (after-InSync t p more s r h y v)
            v.left in
        (ap₂ (λ (x : Received) xs. x ∷ xs) v.result again.0, again.1, again.2)

    -- With a cipher that keeps its laws: packets whose payloads fit, sent at one end with an empty buffer
    -- and no failing write, are received at the other end with its key and its nonce. Each one arrives, in
    -- the order sent, with its type and payload, although some of the bytes may have been peeked before;
    -- what follows them stays to be read, and both ends agree on the key and the nonce again.
    pub receive_all-send_all :
        (ps : List (ℕ × List ℕ)) (rest : List ℕ) (s r : ShannonConn C)
        → AllSmall ps
        → InSync s r
        → s.outgoing ≡ []
        → bytes r.wire ≡ (send_all ps s).outgoing ++ rest
        → ((receive_all (length ps) r).1 ≡ map (λ (p : ℕ × List ℕ). received p.0 p.1) ps)
          × (bytes (receive_all (length ps) r).0.wire ≡ rest)
          × InSync (send_all ps s) (receive_all (length ps) r).0
    unfolding Delivers
    receive_all-send_all ps rest s r h y o e =
        frames-Delivers ps rest s r h y
          (e ∙ ap (λ x. x ++ rest) (send_all-frames ps s h ∙ ap (λ x. x ++ frames ps s) o))
