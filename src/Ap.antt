-- ===== src/Ap.antt =====
-- ap/shannon.go: the packets of the access point, sealed with the cipher of github.com/devgianlu/shannon,
-- which is a parameter. A byte is a number below 256. What will arrive before the connection ends or its
-- deadline passes is a list.
pub mod Framing
pub mod Order
pub mod Genuine
mod Tests
use go_librespot_termux.Prelude.{
  ℕ, zero, suc, ◌+◌, ◌-◌, ◌*◌, ◌/◌, ◌%◌, ◌^◌, ◌≡◌, ◌<◌, ◌↔◌, Bool, true, false, List, [], ◌∷◌, ◌++◌,
  Option, none, some, ltb, if◌then◌else◌, length, take, drop, Run, ok, panic,
}

pub data AllBytes : List ℕ → Type 0 where
  none_left : AllBytes []
  byte : {b : ℕ} {bs : List ℕ} → b < 256 → AllBytes bs → AllBytes (b ∷ bs)

pub record Cipher : Type 1 where
  pub State : Type 0
  pub nonce_u32 : ℕ → State → State
  pub encrypt : List ℕ → State → List ℕ × State
  pub decrypt : List ℕ → State → List ℕ × State
  pub finish : State → List ℕ × State
  pub check_mac : List ℕ → State → Bool × State

-- A stream cipher that decrypts what it encrypted, in pieces as well, and authenticates it with 4 bytes.
-- A nonce starts it again from its key.
pub record CipherLaws (C : Cipher) : Type 1 where
  pub Key : Type 0
  pub key : C.State → Key
  pub nonce_keyed : (n : ℕ) (s r : C.State) → key s ≡ key r → C.nonce_u32 n s ≡ C.nonce_u32 n r
  pub key_nonce : (n : ℕ) (s : C.State) → key (C.nonce_u32 n s) ≡ key s
  pub key_encrypt : (xs : List ℕ) (s : C.State) → key (C.encrypt xs s).1 ≡ key s
  pub key_finish : (s : C.State) → key (C.finish s).1 ≡ key s
  pub key_check : (m : List ℕ) (s : C.State) → key (C.check_mac m s).1 ≡ key s
  pub encrypt_append :
      (xs ys : List ℕ) (s : C.State)
      → (C.encrypt (xs ++ ys) s).0 ≡ (C.encrypt xs s).0 ++ (C.encrypt ys (C.encrypt xs s).1).0
  pub encrypt_append_state :
      (xs ys : List ℕ) (s : C.State)
      → (C.encrypt (xs ++ ys) s).1 ≡ (C.encrypt ys (C.encrypt xs s).1).1
  pub decrypt_encrypt :
      (xs : List ℕ) (s : C.State) → C.decrypt (C.encrypt xs s).0 s ≡ (xs, (C.encrypt xs s).1)
  pub encrypt_decrypt :
      (xs : List ℕ) (s : C.State) → C.encrypt (C.decrypt xs s).0 s ≡ (xs, (C.decrypt xs s).1)
  pub length_encrypt : (xs : List ℕ) (s : C.State) → length (C.encrypt xs s).0 ≡ length xs
  pub length_decrypt : (xs : List ℕ) (s : C.State) → length (C.decrypt xs s).0 ≡ length xs
  pub decrypt_bytes : (xs : List ℕ) (s : C.State) → AllBytes xs → AllBytes (C.decrypt xs s).0
  pub length_finish : (s : C.State) → length (C.finish s).0 ≡ 4
  pub check_finish :
      (m : List ℕ) (s : C.State) → ((C.check_mac m s).0 ≡ true) ↔ (m ≡ (C.finish s).0)

-- What was peeked and not read yet, and what the connection delivers.
pub record Wire : Type 0 where
  pub unread_bytes : List ℕ
  pub incoming : List ℕ

-- `io.ReadFull` from both: none when they end before.
unfoldable pub read_full : ℕ → Wire → Wire × Option (List ℕ)
read_full n w =
    if ltb (length (w.unread_bytes ++ w.incoming)) n
    then (record { unread_bytes = []; incoming = [] }, none)
    else (
      record {
        unread_bytes = drop n w.unread_bytes;
        incoming = drop (n - length w.unread_bytes) w.incoming;
      },
      some (take n (w.unread_bytes ++ w.incoming)),
    )

pub data Sent : Type 0 where
  sent too_big packet_failed mac_failed : Sent

pub data Received : Type 0 where
  received : ℕ → List ℕ → Received
  no_header no_payload no_mac invalid_mac : Received

-- The plain packet: its type, the length of the payload in two bytes, the payload.
unfoldable pub packet : ℕ → List ℕ → List ℕ
packet typ payload = typ ∷ length payload % 2 ^ 16 / 256 ∷ length payload % 2 ^ 16 % 256 ∷ payload

-- Of the 3 bytes of a header.
unfoldable pub header_type : List ℕ → ℕ
header_type [] = 0
header_type (t ∷ bs) = t

unfoldable pub header_length : List ℕ → ℕ
header_length (t ∷ hi ∷ lo ∷ bs) = hi * 256 + lo
header_length bs = 0

module _ (C : Cipher) where
  -- `outgoing` is what was written so far.
  pub record ShannonConn : Type 0 where
    pub send_cipher : C.State
    pub send_nonce : ℕ
    pub recv_cipher : C.State
    pub recv_nonce : ℕ
    pub wire : Wire
    pub outgoing : List ℕ

  unfoldable pub new_conn : C.State → C.State → Wire → ShannonConn
  new_conn send recv w = record {
    send_cipher = send;
    send_nonce = 0;
    recv_cipher = recv;
    recv_nonce = 0;
    wire = w;
    outgoing = [];
  }

  -- A write that fails may have written some bytes before.
  unfoldable pub written : Option ℕ → List ℕ → List ℕ
  written none bs = bs
  written (some k) bs = take k bs

  unfoldable pub write_sealed :
      Option ℕ → Option ℕ → List ℕ → List ℕ → ShannonConn → ShannonConn × Sent
  unfolding written
  write_sealed (some k) w₂ body mac c =
      (record c { outgoing = c.outgoing ++ written (some k) body }, packet_failed)
  write_sealed none (some k) body mac c =
      (record c { outgoing = c.outgoing ++ body ++ written (some k) mac }, mac_failed)
  write_sealed none none body mac c = (record c { outgoing = c.outgoing ++ (body ++ mac) }, sent)

  -- `sendPacket`, where `w₁` and `w₂` tell at which byte the two writes fail, if they do.
  unfoldable pub send_packet : ℕ → List ℕ → Option ℕ → Option ℕ → ShannonConn → ShannonConn × Sent
  unfolding packet write_sealed
  send_packet typ payload w₁ w₂ c =
      let (body, k₁) = C.encrypt (packet typ payload) (C.nonce_u32 c.send_nonce c.send_cipher) in
      let (mac, k₂) = C.finish k₁ in
      if ltb 65535 (length payload)
      then (c, too_big)
      else write_sealed w₁ w₂ body mac
          (record c { send_nonce = (c.send_nonce + 1) % 2 ^ 32; send_cipher = k₂ })

  -- `peekUnencrypted`: none when the connection ends before.
  unfoldable pub peek_unencrypted : ℕ → ShannonConn → Run (ShannonConn × Option (List ℕ))
  peek_unencrypted n c =
      let w = c.wire in
      if ltb 0 (length w.unread_bytes)
      then panic
      else if ltb (length w.incoming) n
      then ok (record c { wire = record w { incoming = [] } }, none)
      else ok (
        record c {
          wire = record { unread_bytes = take n w.incoming; incoming = drop n w.incoming };
        },
        some (take n w.incoming),
      )

  unfoldable pub receive_mac : ℕ → Wire → List ℕ → ShannonConn → ShannonConn × Received
  receive_mac typ w body c =
      let (payload, k) = C.decrypt body c.recv_cipher in
      let (w', mac) = read_full 4 w in
      elim mac [
        | none ↦ (record c { recv_cipher = k; wire = w' }, no_mac)
        | some m ↦
            let (fine, k') = C.check_mac m k in
            (
              record c { recv_cipher = k'; wire = w' },
              if fine then received typ payload else invalid_mac,
            )
      ]

  unfoldable pub receive_payload : Wire → List ℕ → ShannonConn → ShannonConn × Received
  unfolding receive_mac
  receive_payload w header c =
      let (plain, k) = C.decrypt header c.recv_cipher in
      let c' = record c { recv_cipher = k } in
      let (w', body) = read_full (header_length plain) w in
      elim body [
        | none ↦ (record c' { wire = w' }, no_payload)
        | some b ↦ receive_mac (header_type plain) w' b c'
      ]

  unfoldable pub receive_packet : ShannonConn → ShannonConn × Received
  unfolding receive_payload
  receive_packet c =
      let c' = record c {
        recv_cipher = C.nonce_u32 c.recv_nonce c.recv_cipher;
        recv_nonce = (c.recv_nonce + 1) % 2 ^ 32;
      } in
      let (w, header) = read_full 3 c.wire in
      elim header [ none ↦ (record c' { wire = w }, no_header) | some h ↦ receive_payload w h c' ]
