-- ===== src/Server/Handshake.antt =====
-- The control channel handshake of src/server.rs.
use rathole_x.Base.{
  ℕ, suc, zero, ◌≡◌, refl, sym, ap, ◌∙◌, inl, inr, Option, none, some, List, ◌++◌, nat_eq, text_eq,
  Text, length, Bool-cases,
}
use rathole_x.Base.Dict.{get}
use rathole_x.Base.Net.{SocketAddr}
use rathole_x.Config.{ServerServiceConfig}
use rathole_x.Protocol.{
  Wire, Hello, control_channel_hello, Ack, Auth, FitsAuth, current_version, read_auth, digest, done,
  fail,
}
use rathole_x.Protocol
use rathole_x.Server.{
  Conn, Server, no_such_service, auth_failed, Outcome, proceed, bail, ◌>>=◌, send, send_with,
  found_service, token_of, received_auth, digest_eq, offer_nonce, check_auth,
  do_control_channel_handshake,
}
use rathole_x.Server.Digest.{digest_eq_iff}

-- A step that proceeded, and so did what follows it.
>>=-eq-proceed :
    {A B : Type 0} (m : Outcome A) (f : A → Conn → Outcome B) {b : B} {c : Conn}
    → (m >>= f) ≡ proceed b c
    → (a : A) × (c' : Conn) × (m ≡ proceed a c') × (f a c' ≡ proceed b c)
>>=-eq-proceed (proceed a c') f h = (a, c', refl, h)
>>=-eq-proceed (bail e c') f h = cc

send-input :
    (n : ℕ) (m : List ℕ) (c c' : Conn) (u : Unit {0})
    → send_with n m c ≡ proceed u c'
    → c.input ≡ c'.input
send-input zero m c c' u h = cc
send-input (suc n) m c c' u h =
    let e : record c { sent = c.sent ++ m; writes = n } ≡ c' = cc in ap (λ (x : Conn). x.input) e

found_service-eq-proceed :
    (w : Wire) (d : Text) (o : Option ServerServiceConfig) (c c1 : Conn) (cfg : ServerServiceConfig)
    → found_service w d o c ≡ proceed cfg c1
    → (o ≡ some cfg) × (c ≡ c1)
found_service-eq-proceed w d none c c1 cfg h =
    let (u, c2, _, e) =
      >>=-eq-proceed (send (w.ack.serialize Ack.service_not_exist) c)
        (λ _ x. bail (no_such_service d) x) h in
    cc
found_service-eq-proceed w d (some x) c c1 cfg h = (cc, cc)

token_of-eq-proceed :
    (w : Wire) (o : Option Text) (c c1 : Conn) (t : Text)
    → token_of w o c ≡ proceed t c1
    → (o ≡ some t) × (c ≡ c1)
token_of-eq-proceed w none c c1 t h = cc
token_of-eq-proceed w (some x) c c1 t h = (cc, cc)

received_auth-eq-proceed :
    (w : Wire) (r : Protocol.Result (Auth × List ℕ)) (c c1 : Conn) (a a' : Auth) (rest : List ℕ)
    → r ≡ done (a, rest)
    → received_auth w r c ≡ proceed a' c1
    → a ≡ a'
received_auth-eq-proceed w (fail e) c c1 a a' rest q h = cc
received_auth-eq-proceed w (done (x, y)) c c1 a a' rest q h = cc

module _ (w : Wire) (now : ℕ) (source_addr : SocketAddr) (nonce service_digest : Text) where
  -- A control channel is established only for a service of the server, and only if the
  -- authentication that the peer sent is the digest of that service's token followed by the nonce of
  -- this handshake. A received digest has its 32 bytes.
  pub do_control_channel_handshake-auth :
      (meanwhile : Server → Server) (s s' : Server) (c c' : Conn) (a : Auth) (rest : List ℕ)
      → read_auth w c.input ≡ done (a, rest)
      → FitsAuth a
      → do_control_channel_handshake w now source_addr nonce service_digest meanwhile s c
        ≡ proceed s' c'
      → (cfg : ServerServiceConfig) × (token : Text) × (get service_digest s.services ≡ some cfg)
        × (cfg.token ≡ some token)
        × (a.digest ≡ digest w (token ++ nonce))
  unfolding do_control_channel_handshake offer_nonce check_auth
  do_control_channel_handshake-auth meanwhile s s' c c' a rest read fits h =
      let (cfg, c1, offered, h1) = >>=-eq-proceed _ _ h in
      let (u, c2, sent, found) =
        >>=-eq-proceed (send (w.hello.serialize (control_channel_hello current_version nonce)) c) _
          offered in
      let (service, same) =
        found_service-eq-proceed w service_digest (get service_digest s.services) c2 c1 cfg found in
      let (token, c3, tok, h2) = >>=-eq-proceed (token_of w cfg.token c1) _ h1 in
      let (has_token, same3) = token_of-eq-proceed w cfg.token c1 c3 token tok in
      let (a', c4, got, h3) = >>=-eq-proceed (received_auth w (read_auth w c3.input) c3) _ h2 in
      let input : c.input ≡ c3.input =
        send-input c.writes _ c c2 u sent ∙ ap (λ (x : Conn). x.input) (same ∙ same3) in
      let same_auth : a ≡ a' =
        received_auth-eq-proceed w (read_auth w c3.input) c3 c4 a a' rest
          (ap (read_auth w) (sym input) ∙ read) got in
      let l : length (digest w (token ++ nonce)) ≡ length a.digest = w.sha256_width _ ∙ sym fits in
      elim (Bool-cases (digest_eq (digest w (token ++ nonce)) a'.digest)) [
        | inl t ↦
            let equal = (digest_eq_iff (digest w (token ++ nonce)) a.digest l).0 (rw same_auth t) in
            (cfg, token, service, has_token, sym equal)
        | inr t ↦
            let refused : ◌≡◌ {A = Outcome Server}
                (send (w.ack.serialize Ack.auth_failed) c4 >>= λ _ x. bail (auth_failed cfg.name) x)
                (proceed s' c') =
              rw t at h3 in
            let (u5, c5, _, bad) =
              >>=-eq-proceed (send (w.ack.serialize Ack.auth_failed) c4)
                (λ _ x. bail (auth_failed cfg.name) x) refused in
            cc
      ]
