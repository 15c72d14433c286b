-- ===== src/Ap/Framing.antt =====
-- ap/shannon.go: what one end seals, the other end receives.
use go_librespot_termux.Prelude.{
  ℕ, zero, suc, ◌+◌, ◌-◌, ◌%◌, ◌^◌, ◌≤◌, ◌≡◌, refl, sym, ap, ap₂, ◌∙◌, List, [], ◌∷◌, ◌++◌,
  append_assoc, Option, some, arith, ltb, le→ltb-false, if_true, if_false, if◌then◌else◌, length,
  length-append, take, drop,
}
use go_librespot_termux.Ap.{
  Cipher, CipherLaws, Wire, read_full, Received, received, invalid_mac, packet, header_type,
  header_length, ShannonConn, receive_mac, receive_payload, receive_packet,
}

-- The bytes that are still to be read.
abbrev pub bytes : Wire → List ℕ
bytes w = w.unread_bytes ++ w.incoming

take-prefix : (xs ys : List ℕ) → take (length xs) (xs ++ ys) ≡ xs
take-prefix [] ys = refl
take-prefix (x ∷ xs) ys = ap (λ t. x ∷ t) (take-prefix xs ys)

drop-prefix : (xs ys : List ℕ) → drop (length xs) (xs ++ ys) ≡ ys
drop-prefix [] ys = refl
drop-prefix (x ∷ xs) ys = drop-prefix xs ys

pub drop-append :
    (n : ℕ) (xs ys : List ℕ) → drop n xs ++ drop (n - length xs) ys ≡ drop n (xs ++ ys)
drop-append zero xs ys = ap (λ k. xs ++ drop k ys) {x = 0 - length xs} {y = 0} (omega arith)
drop-append (suc n) [] ys = ap (λ k. drop k ys) {x = suc n - 0} {y = suc n} (omega arith)
drop-append (suc n) (x ∷ xs) ys =
    ap (λ k. drop n xs ++ drop k ys) {x = suc n - suc (length xs)} {y = n - length xs} (omega arith)
    ∙ drop-append n xs ys

pub read_full-enough :
    (n : ℕ) (w : Wire)
    → n ≤ length (bytes w)
    → ((read_full n w).1 ≡ some (take n (bytes w))) × (bytes (read_full n w).0 ≡ drop n (bytes w))
unfolding read_full
read_full-enough n w h =
    let e = le→ltb-false (length (bytes w)) n h in
    (
      ap (λ (r : Wire × Option (List ℕ)). r.1) (if_false (ltb (length (bytes w)) n) _ _ e),
      ap (λ (r : Wire × Option (List ℕ)). bytes r.0) (if_false (ltb (length (bytes w)) n) _ _ e)
          ∙ drop-append n w.unread_bytes w.incoming,
    )

-- What is read is the bytes that come first.
read_full-prefix :
    (n : ℕ) (w : Wire) (xs rest : List ℕ)
    → n ≡ length xs
    → bytes w ≡ xs ++ rest
    → ((read_full n w).1 ≡ some xs) × (bytes (read_full n w).0 ≡ rest)
read_full-prefix n w xs rest l e =
    let r = read_full-enough n w (omega (arith, l, length-append xs rest, ap length e)) in
    let cut = λ (f : ℕ → List ℕ → List ℕ). ap₂ f l e in
    (r.0 ∙ ap some (cut take ∙ take-prefix xs rest), r.1 ∙ cut drop ∙ drop-prefix xs rest)

module _ (C : Cipher) where
  -- A sealed packet, from a cipher that has its nonce.
  abbrev pub frame : List ℕ → C.State → List ℕ
  frame p k = (C.encrypt p k).0 ++ (C.finish (C.encrypt p k).1).0

  -- The connection and the wire after the reads of a packet.
  abbrev pub begun : ShannonConn C → C.State
  begun c = C.nonce_u32 c.recv_nonce c.recv_cipher

  abbrev pub plain_header : List ℕ → ShannonConn C → List ℕ
  plain_header h c = (C.decrypt h (begun c)).0

  abbrev pub opened : List ℕ → List ℕ → ShannonConn C → List ℕ × C.State
  opened h b c = C.decrypt b (C.decrypt h (begun c)).1

  abbrev pub wire₁ : ShannonConn C → Wire
  wire₁ c = (read_full 3 c.wire).0

  abbrev pub wire₂ : List ℕ → ShannonConn C → Wire
  wire₂ h c = (read_full (header_length (plain_header h c)) (wire₁ c)).0

  -- A packet whose three parts are there.
  pub receive_packet-reads :
      (h b m : List ℕ) (c : ShannonConn C)
      → (read_full 3 c.wire).1 ≡ some h
      → (read_full (header_length (plain_header h c)) (wire₁ c)).1 ≡ some b
      → (read_full 4 (wire₂ h c)).1 ≡ some m
      → receive_packet C c ≡ (
        record c {
          recv_cipher = (C.check_mac m (opened h b c).1).1;
          recv_nonce = (c.recv_nonce + 1) % 2 ^ 32;
          wire = (read_full 4 (wire₂ h c)).0;
        },
        if (C.check_mac m (opened h b c).1).0
            then received (header_type (plain_header h c)) (opened h b c).0
            else invalid_mac,
      )
  unfolding receive_packet receive_payload receive_mac
  receive_packet-reads h b m c e₁ e₂ e₃ =
      rw (e₁, receive_packet) (rw (e₂, receive_payload) (rw (e₃, receive_mac) refl))

  module _ (L : CipherLaws C) where
    open L use {key}

    -- The next packet is read off the wire as it was sealed, and the rest stays there.
    pub record Receives (typ : ℕ) (payload rest : List ℕ) (c : ShannonConn C) : Type 0 where
      pub result : (receive_packet C c).1 ≡ received typ payload
      pub left : bytes (receive_packet C c).0.wire ≡ rest
      pub nonce : (receive_packet C c).0.recv_nonce ≡ (c.recv_nonce + 1) % 2 ^ 32
      pub same_key : key (receive_packet C c).0.recv_cipher ≡ key c.recv_cipher

    head_of : ℕ → List ℕ → List ℕ
    head_of typ payload = take 3 (packet typ payload)

    head_length :
        (typ : ℕ) (payload : List ℕ)
        → length payload ≤ 65535
        → header_length (head_of typ payload) ≡ length payload
    unfolding head_of packet header_length
    head_length typ payload h = omega arith

    frame-parts :
        (typ : ℕ) (payload rest : List ℕ) (k : C.State)
        → let hd = head_of typ payload in
          let k₁ = (C.encrypt hd k).1 in
          frame (packet typ payload) k ++ rest
          ≡ (C.encrypt hd k).0
            ++ ((C.encrypt payload k₁).0 ++ ((C.finish (C.encrypt payload k₁).1).0 ++ rest))
    unfolding head_of packet
    frame-parts typ payload rest k =
        let hd = head_of typ payload in
        let k₁ = (C.encrypt hd k).1 in
        let m = (C.finish (C.encrypt payload k₁).1).0 in
        ap₂ (λ (x : List ℕ) (s : C.State). (x ++ (C.finish s).0) ++ rest)
          (L.encrypt_append hd payload k) (L.encrypt_append_state hd payload k)
        ∙ (append_assoc ((C.encrypt hd k).0 ++ (C.encrypt payload k₁).0) m rest
            ∙ append_assoc (C.encrypt hd k).0 (C.encrypt payload k₁).0 (m ++ rest))

    pub receive_packet-Receives :
        (typ : ℕ) (payload rest : List ℕ) (c : ShannonConn C)
        → length payload ≤ 65535
        → bytes c.wire ≡ frame (packet typ payload) (begun c) ++ rest
        → Receives typ payload rest c
    unfolding head_of packet header_type
    receive_packet-Receives typ payload rest c small e =
        let k = begun c in
        let hd = head_of typ payload in
        let h = (C.encrypt hd k).0 in
        let k₁ = (C.encrypt hd k).1 in
        let b = (C.encrypt payload k₁).0 in
        let k₂ = (C.encrypt payload k₁).1 in
        let m = (C.finish k₂).0 in
        let dec = L.decrypt_encrypt hd k in
        let r₁ =
          read_full-prefix 3 c.wire h (b ++ (m ++ rest)) (sym (L.length_encrypt hd k))
            (e ∙ frame-parts typ payload rest k) in
        let r₂ =
          read_full-prefix (header_length (plain_header h c)) (wire₁ c) b (m ++ rest)
            (ap (λ (x : List ℕ × C.State). header_length x.0) dec
              ∙ (head_length typ payload small ∙ sym (L.length_encrypt payload k₁)))
            r₁.1 in
        let r₃ = read_full-prefix 4 (wire₂ h c) m rest (sym (L.length_finish k₂)) r₂.1 in
        let eq = receive_packet-reads h b m c r₁.0 r₂.0 r₃.0 in
        let op =
          ap (λ (x : List ℕ × C.State). C.decrypt b x.1) dec ∙ L.decrypt_encrypt payload k₁ in
        let fine =
          ap (λ (x : List ℕ × C.State). (C.check_mac m x.1).0) op ∙ (L.check_finish m k₂).1 refl in
        record {
          result =
              ap (λ (x : ShannonConn C × Received). x.1) eq
              ∙ (if_true (C.check_mac m (opened h b c).1).0 _ _ fine
                  ∙ ap₂ received (ap (λ (x : List ℕ × C.State). header_type x.0) dec)
                      (ap (λ (x : List ℕ × C.State). x.0) op));
          left = ap (λ (x : ShannonConn C × Received). bytes x.0.wire) eq ∙ r₃.1;
          nonce = ap (λ (x : ShannonConn C × Received). x.0.recv_nonce) eq;
          same_key =
              ap (λ (x : ShannonConn C × Received). key x.0.recv_cipher) eq
              ∙ (L.key_check m (opened h b c).1
                  ∙ (ap (λ (x : List ℕ × C.State). key x.1) op
                      ∙ (L.key_encrypt payload k₁
                          ∙ (L.key_encrypt hd k ∙ L.key_nonce c.recv_nonce c.recv_cipher))));
        }
