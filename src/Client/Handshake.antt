-- ===== src/Client/Handshake.antt =====
-- The client's side of the control channel handshake of src/client.rs.
use rathole_x.Base.{
  ℕ, suc, ◌≡◌, ◌≢◌, ◌⊎◌, inl, inr, refl, ap, ◌∙◌, some, List, ◌++◌, Text, length, arith,
}
use rathole_x.Protocol.{
  Wire, control_channel_hello, current_version, hash_width, Ack, Auth, read_hello, read_ack, digest,
  done, FitsHello,
}
use rathole_x.Protocol
use rathole_x.Protocol.Reads.{read_hello-serialize, read-serialize}
use rathole_x.Server.{Conn}
use rathole_x.Client.{establish, acknowledged, connected, failed, authentication_failed}

-- The connection of a client behind the handshake: what it wrote, and what is left to read.
abbrev pub shaken : Wire → Text → Text → Text → List ℕ → ℕ → Conn → Conn
shaken w service_digest token nonce rest n c = record {
  input = rest;
  sent =
      (c.sent ++ w.hello.serialize (control_channel_hello current_version service_digest))
      ++ w.auth.serialize (record { digest = digest w (token ++ nonce) });
  writes = n;
}

-- A client whose peer answers with a hello of a 32-byte nonce, and then with an ack, and whose socket
-- accepts both writes: if the ack is `Ok`, the channel is connected, the client has written its own
-- hello and the digest of its token followed by the nonce, and that digest is the session key, the
-- same that the server computes from its token; on any other ack it fails with that ack.
pub establish-acknowledged :
    (w : Wire) (service_digest token nonce : Text) (a : Ack) (rest : List ℕ) (c : Conn) (n : ℕ)
    → c.input
      ≡ w.hello.serialize (control_channel_hello current_version nonce)
        ++ (w.ack.serialize a ++ rest)
    → length nonce ≡ hash_width
    → c.writes ≡ suc (suc n)
    → ((a ≡ Ack.ok)
        × (establish w service_digest (some token) c
            ≡ connected (digest w (token ++ nonce)) (shaken w service_digest token nonce rest n c)))
      ⊎ ((a ≢ Ack.ok)
          × (establish w service_digest (some token) c ≡ failed (authentication_failed a)))
unfolding establish
establish-acknowledged w service_digest token nonce a rest c n input width room =
    let hello = control_channel_hello current_version nonce in
    let fits : FitsHello hello = (omega arith, width) in
    let heard : read_hello w c.input ≡ done (hello, w.ack.serialize a ++ rest) =
      ap (read_hello w) input ∙ read_hello-serialize w hello (w.ack.serialize a ++ rest) fits in
    let acked : read_ack w (w.ack.serialize a ++ rest) ≡ done (a, rest) =
      (read-serialize w (record { digest = digest w (token ++ nonce) }) a
        Protocol.create_data_channel Protocol.start_forward_tcp rest (w.sha256_width _)).1 in
    let answered : establish w service_digest (some token) c
        ≡ acknowledged (digest w (token ++ nonce)) a
            (shaken w service_digest token nonce rest n c) =
      rw (room, heard, acked) refl in
    by_ack a answered
  where
    by_ack :
        (b : Ack)
        → establish w service_digest (some token) c
          ≡ acknowledged
              (digest w (token ++ nonce))
              b
              (shaken w service_digest token nonce rest n c)
        → ((b ≡ Ack.ok)
            × (establish w service_digest (some token) c
                ≡ connected
                    (digest w (token ++ nonce))
                    (shaken w service_digest token nonce rest n c)))
          ⊎ ((b ≢ Ack.ok)
              × (establish w service_digest (some token) c ≡ failed (authentication_failed b)))
    by_ack Ack.ok h = inl (refl, h)
    by_ack Ack.service_not_exist h = inr (λ q. cc, h)
    by_ack Ack.auth_failed h = inr (λ q. cc, h)
