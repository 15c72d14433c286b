-- ===== src/Ap/Genuine.antt =====
-- ap/shannon.go: what is received was sealed with the key of the connection.
use go_librespot_termux.Prelude.{
  ℕ, ◌≤◌, ◌≡◌, refl, sym, ap, ap₂, ◌∙◌, subst, Bool, true, false, List, [], ◌∷◌, ◌++◌, append_assoc,
  Option, none, some, arith, ltb, ltb-false→le, Bool-cases, Option-cases, inl, inr, if_true,
  if◌then◌else◌, length, length-take, take, take-append-drop,
}
use go_librespot_termux.Ap.{
  AllBytes, none_left, byte, Cipher, CipherLaws, Wire, read_full, Received, received, no_header,
  no_payload, no_mac, invalid_mac, packet, header_type, header_length, ShannonConn, receive_mac,
  receive_payload, receive_packet,
}
use go_librespot_termux.Ap.Framing.{
  bytes, frame, begun, plain_header, opened, wire₁, wire₂, read_full-enough, receive_packet-reads,
}

-- A read that is served takes as many bytes as it asked for, the first ones.
read_full-some :
    (n : ℕ) (w : Wire) (xs : List ℕ)
    → (read_full n w).1 ≡ some xs
    → (length xs ≡ n) × (bytes w ≡ xs ++ bytes (read_full n w).0)
unfolding read_full
read_full-some n w xs e = elim (Bool-cases (ltb (length (bytes w)) n)) [
  | inl y ↦
      let fails : (read_full n w).1 ≡ none =
        ap (λ (r : Wire × Option (List ℕ)). r.1) (if_true (ltb (length (bytes w)) n) _ _ y) in
      absurd (cc)
  | inr x ↦
      (let r = read_full-enough n w (ltb-false→le _ _ x) in
        let same : take n (bytes w) ≡ xs = cc in
        (
          omega (arith, ap length same, length-take n (bytes w), ltb-false→le _ _ x),
          sym (take-append-drop n (bytes w)) ∙ ap₂ (λ (a b : List ℕ). a ++ b) same (sym r.1),
        ))
]

AllBytes-append : (xs ys : List ℕ) → AllBytes (xs ++ ys) → AllBytes xs × AllBytes ys
AllBytes-append [] ys h = (none_left, h)
AllBytes-append (x ∷ xs) ys (byte b h) = let r = AllBytes-append xs ys h in (byte b r.0, r.1)

module _ (C : Cipher) where
  pub record Parts (c : ShannonConn C) : Type 0 where
    pub header : List ℕ
    pub body : List ℕ
    pub mac : List ℕ
    pub header_read : (read_full 3 c.wire).1 ≡ some header
    pub body_read : (read_full (header_length (plain_header C header c)) (wire₁ C c)).1 ≡ some body
    pub mac_read : (read_full 4 (wire₂ C header c)).1 ≡ some mac

  -- A result that is a packet comes from three reads that were served.
  receive_packet-Parts :
      (t : ℕ) (p : List ℕ) (c : ShannonConn C) → (receive_packet C c).1 ≡ received t p → Parts c
  unfolding receive_packet receive_payload receive_mac
  receive_packet-Parts t p c e = elim (Option-cases (read_full 3 c.wire).1) [
    | inl n ↦
        let s : (receive_packet C c).1 ≡ no_header = rw (n, receive_packet) refl in absurd (cc)
    | inr (h, e₁) ↦
        elim (Option-cases (read_full (header_length (plain_header C h c)) (wire₁ C c)).1) [
          | inl n ↦
              let s : (receive_packet C c).1 ≡ no_payload =
                rw (e₁, receive_packet) (rw (n, receive_payload) refl) in
              absurd (cc)
          | inr (b, e₂) ↦ elim (Option-cases (read_full 4 (wire₂ C h c)).1) [
            | inl n ↦
                let s : (receive_packet C c).1 ≡ no_mac =
                  rw (e₁, receive_packet) (rw (e₂, receive_payload) (rw (n, receive_mac) refl)) in
                absurd (cc)
            | inr (m, e₃) ↦ record {
              header = h;
              body = b;
              mac = m;
              header_read = e₁;
              body_read = e₂;
              mac_read = e₃;
            }
          ]
        ]
  ]

  received_if :
      (b : Bool) (t u : ℕ) (p q : List ℕ)
      → (if b then received t p else invalid_mac) ≡ received u q
      → (b ≡ true) × (t ≡ u) × (p ≡ q)
  received_if true t u p q e = (refl, cc, cc)
  received_if false t u p q e = absurd (cc)

  module _ (L : CipherLaws C) where
    -- A plain header is the beginning of the packet that it announces.
    header-packet :
        (hd p : List ℕ)
        → length hd ≡ 3
        → AllBytes hd
        → length p ≡ header_length hd
        → (hd ++ p ≡ packet (header_type hd) p) × (length p ≤ 65535)
    unfolding packet header_type header_length
    header-packet [] p l h e = absurd (cc)
    header-packet (t ∷ []) p l h e = absurd (omega (arith, l))
    header-packet (t ∷ hi ∷ []) p l h e = absurd (omega (arith, l))
    header-packet (t ∷ hi ∷ lo ∷ []) p l (byte bt (byte bh (byte bl none_left))) e = (
      ap₂ (λ (x y : ℕ). t ∷ x ∷ y ∷ p) (omega (arith, bh, bl, e)) (omega (arith, bh, bl, e)),
      omega (arith, bh, bl, e),
    )
    header-packet (t ∷ hi ∷ lo ∷ a ∷ bs) p l h e = absurd (omega (arith, l))

    -- The frame of a packet that the cipher seals in two pieces.
    sealed :
        (h b m plain payload : List ℕ) (k k₂ : C.State) {k₁ : C.State}
        → C.encrypt plain k ≡ (h, k₁)
        → C.encrypt payload k₁ ≡ (b, k₂)
        → m ≡ (C.finish k₂).0
        → (p : List ℕ) → p ≡ plain ++ payload
        → frame C p k ≡ (h ++ b) ++ m
    sealed h b m plain payload k k₂ e₁ e₂ e₃ p e =
        ap (λ x. frame C x k) e
        ∙ (ap₂ (λ (x : List ℕ) (s : C.State). x ++ (C.finish s).0)
              (L.encrypt_append plain payload k) (L.encrypt_append_state plain payload k)
            ∙ (ap
                  (λ (x : List ℕ × C.State).
                    (x.0 ++ (C.encrypt payload x.1).0) ++ (C.finish (C.encrypt payload x.1).1).0)
                  e₁
                ∙ (ap (λ (x : List ℕ × C.State). (h ++ x.0) ++ (C.finish x.1).0) e₂
                    ∙ ap (λ x. (h ++ b) ++ x) (sym e₃))))

    -- With a cipher that keeps its laws: a packet that is received, from a connection that delivers bytes,
    -- was sealed with the connection's key under the nonce that is due. What was read is the frame of that
    -- very packet, and nothing more, and the length of its payload fits into two bytes.
    pub receive_packet-genuine :
        (t : ℕ) (p : List ℕ) (c c' : ShannonConn C)
        → AllBytes (bytes c.wire)
        → receive_packet C c ≡ (c', received t p)
        → (bytes c.wire ≡ frame C (packet t p) (begun C c) ++ bytes c'.wire) × (length p ≤ 65535)
    receive_packet-genuine t p c c' a e =
        let q = receive_packet-Parts t p c (ap (λ (x : ShannonConn C × Received). x.1) e) in
        let h = q.header in
        let b = q.body in
        let m = q.mac in
        let k = begun C c in
        let eq = receive_packet-reads C h b m c q.header_read q.body_read q.mac_read in
        let o = opened C h b c in
        let v = received_if (C.check_mac m o.1).0 (header_type (plain_header C h c)) t o.0 p (
          sym (ap (λ (x : ShannonConn C × Received). x.1) eq)
          ∙ ap (λ (x : ShannonConn C × Received). x.1) e) in
        let r₁ = read_full-some 3 c.wire h q.header_read in
        let r₂ = read_full-some (header_length (plain_header C h c)) (wire₁ C c) b q.body_read in
        let r₃ = read_full-some 4 (wire₂ C h c) m q.mac_read in
        let k₁ = (C.decrypt h k).1 in
        let hp =
          header-packet (plain_header C h c) p (L.length_decrypt h k ∙ r₁.0)
            (L.decrypt_bytes h k (AllBytes-append h (bytes (wire₁ C c)) (subst AllBytes r₁.1 a)).0)
            (sym (ap length v.2) ∙ (L.length_decrypt b k₁ ∙ r₂.0)) in
        let same : packet t p ≡ plain_header C h c ++ o.0 =
          ap (λ x. packet x p) (sym v.1)
          ∙ (sym hp.0 ∙ ap (λ x. plain_header C h c ++ x) (sym v.2)) in
        let last : bytes (read_full 4 (wire₂ C h c)).0 ≡ bytes c'.wire =
          sym (ap (λ (x : ShannonConn C × Received). bytes x.0.wire) eq)
          ∙ ap (λ (x : ShannonConn C × Received). bytes x.0.wire) e in
        let read : bytes c.wire ≡ ((h ++ b) ++ m) ++ bytes c'.wire =
          r₁.1
          ∙ (ap (λ x. h ++ x) (r₂.1 ∙ ap (λ x. b ++ x) (r₃.1 ∙ ap (λ x. m ++ x) last))
              ∙ sym (
                  append_assoc (h ++ b) m (bytes c'.wire)
                  ∙ append_assoc h b (m ++ bytes c'.wire))) in
        (
          read
              ∙ ap (λ x. x ++ bytes c'.wire)
                  (sym (
                    sealed h b m (plain_header C h c) o.0 k o.1 (L.encrypt_decrypt h k)
                      (L.encrypt_decrypt b k₁) ((L.check_finish m o.1).0 v.0) (packet t p) same)),
          hp.1,
        )
