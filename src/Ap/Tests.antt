-- ===== src/Ap/Tests.antt =====
-- ap/shannon.go: runs of the model, with a small cipher that inverts each byte and counts what it saw.
use go_librespot_termux.Prelude.{
  ℕ, suc, ◌+◌, ◌-◌, ◌%◌, ◌≤◌, ◌≡◌, refl, sym, ap, ap₂, List, [], ◌∷◌, ◌++◌, arith, ltb,
  if◌then◌else◌, length, take, drop, text_eq, text_eq_iff,
}
use go_librespot_termux.Ap.{
  AllBytes, none_left, byte, Cipher, CipherLaws, received, invalid_mac, no_header, packet,
  ShannonConn, send_packet, receive_packet, receive_mac, receive_payload, write_sealed, read_full,
  header_type, header_length,
}
use go_librespot_termux.Ap.Framing.{bytes, frame, begun}
use go_librespot_termux.Ap.Order.{
  no_packet, small, send_all, receive_all, InSync, receive_all-send_all,
}
use go_librespot_termux.Ap.Genuine.{receive_packet-genuine}

abbrev flip : ℕ → ℕ
flip b = if ltb b 256 then 255 - b else b

flip-flip : (b : ℕ) → flip (flip b) ≡ b
flip-flip b = ground (arith)

abbrev inverted : List ℕ → List ℕ
inverted [] = []
inverted (b ∷ bs) = flip b ∷ inverted bs

abbrev sum : List ℕ → ℕ
sum [] = 0
sum (b ∷ bs) = b + sum bs

inverted-inverted : (bs : List ℕ) → inverted (inverted bs) ≡ bs
inverted-inverted [] = refl
inverted-inverted (b ∷ bs) = ap₂ (λ x xs. x ∷ xs) (flip-flip b) (inverted-inverted bs)

inverted-append : (xs ys : List ℕ) → inverted (xs ++ ys) ≡ inverted xs ++ inverted ys
inverted-append [] ys = refl
inverted-append (b ∷ bs) ys = ap (λ x. flip b ∷ x) (inverted-append bs ys)

sum-append : (xs ys : List ℕ) (k : ℕ) → k + sum (xs ++ ys) ≡ k + sum xs + sum ys
sum-append [] ys k = omega arith
sum-append (b ∷ bs) ys k = omega (arith, sum-append bs ys k)

length-inverted : (bs : List ℕ) → length (inverted bs) ≡ length bs
length-inverted [] = refl
length-inverted (b ∷ bs) = ap suc (length-inverted bs)

inverted-AllBytes : (bs : List ℕ) → AllBytes bs → AllBytes (inverted bs)
inverted-AllBytes [] none_left = none_left
inverted-AllBytes (b ∷ bs) (byte h hs) = byte (ground (arith, h)) (inverted-AllBytes bs hs)

abbrev toy : Cipher
toy = record {
  State = ℕ × ℕ;
  nonce_u32 = λ n s. (s.0, n);
  encrypt = λ xs s. (inverted xs, (s.0, s.1 + sum xs));
  decrypt = λ xs s. (inverted xs, (s.0, s.1 + sum (inverted xs)));
  finish = λ s. (s.0 % 256 ∷ s.1 % 256 ∷ 0 ∷ 0 ∷ [], s);
  check_mac = λ m s. (text_eq m (s.0 % 256 ∷ s.1 % 256 ∷ 0 ∷ 0 ∷ []), s);
}

abbrev toy_laws : CipherLaws toy
toy_laws = record {
  Key = ℕ;
  key = λ s. s.0;
  nonce_keyed = λ n s r e. ap (λ k. (k, n)) e;
  key_nonce = λ n s. refl;
  key_encrypt = λ xs s. refl;
  key_finish = λ s. refl;
  key_check = λ m s. refl;
  encrypt_append = λ xs ys s. inverted-append xs ys;
  encrypt_append_state = λ xs ys s. ap (λ k. (s.0, k)) (sum-append xs ys s.1);
  decrypt_encrypt = λ xs s. ap (λ ys. (ys, (s.0, s.1 + sum ys))) (inverted-inverted xs);
  encrypt_decrypt = λ xs s. ap (λ ys. (ys, (s.0, s.1 + sum (inverted xs)))) (inverted-inverted xs);
  length_encrypt = λ xs s. length-inverted xs;
  length_decrypt = λ xs s. length-inverted xs;
  decrypt_bytes = λ xs s h. inverted-AllBytes xs h;
  length_finish = λ s. refl;
  check_finish = λ m s. text_eq_iff m (s.0 % 256 ∷ s.1 % 256 ∷ 0 ∷ 0 ∷ []);
}

abbrev two_packets : List (ℕ × List ℕ)
two_packets = (171, 104 ∷ 105 ∷ []) ∷ (4, []) ∷ []

abbrev sender : ShannonConn toy
sender = record {
  send_cipher = (7, 0);
  send_nonce = 0;
  recv_cipher = (9, 0);
  recv_nonce = 0;
  wire = record { unread_bytes = []; incoming = [] };
  outgoing = [];
}

abbrev sent_bytes : List ℕ
sent_bytes = 84 ∷ 255 ∷ 253 ∷ 151 ∷ 150 ∷ 7 ∷ 126 ∷ 0 ∷ 0 ∷ 251 ∷ 255 ∷ 255 ∷ 7 ∷ 5 ∷ 0 ∷ 0 ∷ []

-- The first bytes were peeked, and another byte follows.
abbrev receiver : ShannonConn toy
receiver = record {
  send_cipher = (9, 0);
  send_nonce = 0;
  recv_cipher = (7, 3);
  recv_nonce = 0;
  wire = record { unread_bytes = take 2 sent_bytes; incoming = drop 2 sent_bytes ++ 1 ∷ [] };
  outgoing = [];
}

sent_over : (send_all toy two_packets sender).outgoing ≡ sent_bytes
unfolding send_all send_packet write_sealed packet
sent_over = refl

receive_all-send_all_example :
    ((receive_all toy 2 receiver).1 ≡ received 171 (104 ∷ 105 ∷ []) ∷ received 4 [] ∷ [])
    × (bytes (receive_all toy 2 receiver).0.wire ≡ 1 ∷ [])
    × InSync toy toy_laws (send_all toy two_packets sender) (receive_all toy 2 receiver).0
receive_all-send_all_example =
    receive_all-send_all toy toy_laws two_packets (1 ∷ []) sender receiver
      (small (omega arith) (small (omega arith) no_packet))
      (record { same_key = refl; same_nonce = refl }) refl (ap (λ x. x ++ 1 ∷ []) (sym sent_over))

-- A byte of the code is wrong.
tampered :
    (receive_packet toy (record receiver {
      wire = record { unread_bytes = []; incoming = 251 ∷ 255 ∷ 255 ∷ 7 ∷ 6 ∷ 0 ∷ 0 ∷ [] };
    })).1
    ≡ invalid_mac
unfolding receive_packet receive_payload receive_mac read_full header_type header_length text_eq
tampered = refl

cut_off :
    (receive_packet toy
      (record receiver { wire = record { unread_bytes = []; incoming = 251 ∷ [] } })).1
    ≡ no_header
unfolding receive_packet read_full
cut_off = refl

abbrev one_frame : ShannonConn toy
one_frame = record receiver {
  wire = record { unread_bytes = []; incoming = 251 ∷ 255 ∷ 255 ∷ 7 ∷ 4 ∷ 0 ∷ 0 ∷ [] };
}

abbrev read_out : ShannonConn toy
read_out = record receiver {
  recv_cipher = (7, 4);
  recv_nonce = 1;
  wire = record { unread_bytes = []; incoming = [] };
}

one_received : receive_packet toy one_frame ≡ (read_out, received 4 [])
unfolding receive_packet receive_payload receive_mac read_full header_type header_length text_eq
one_received = refl

receive_packet-genuine_example :
    (bytes one_frame.wire ≡ frame toy (packet 4 []) (begun toy one_frame) ++ bytes read_out.wire)
    × (0 ≤ 65535)
receive_packet-genuine_example =
    receive_packet-genuine toy toy_laws 4 [] one_frame read_out
      (byte (omega arith) (
        byte (omega arith) (
          byte (omega arith) (
            byte (omega arith)
              (byte (omega arith) (byte (omega arith) (byte (omega arith) none_left)))))))
      one_received
