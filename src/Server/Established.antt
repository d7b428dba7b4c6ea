-- ===== src/Server/Established.antt =====
-- What a successful control channel handshake of src/server.rs leaves in the shared state, and what a
-- refused one tells the peer.
use mathlib.Core.Path.{subst}
use rathole_x.Base.{
  HasEq, ℕ, suc, ◌≡◌, refl, sym, ap, ◌∙◌, ◌≢◌, inl, inr, true, none, some, List, [], ◌∷◌, ◌++◌,
  if◌then◌else◌, arith, nat_eq, text_eq, Text, ◌==◌, ==-cases, Bool-cases, eq_self,
}
use rathole_x.Base.Dict.{get}
use rathole_x.Base.Net.{SocketAddr}
use rathole_x.Config.{ServerServiceConfig}
use rathole_x.Status.{RuntimeSnapshot, ServerSnapshot, server, server_connected}
use rathole_x.MultiMap.{Item}
use rathole_x.MultiMap.Spec.{spec_step}
use rathole_x.MultiMap.Cells.{find_by, drop_by, Unique, find_by-drop_by}
use rathole_x.Protocol.{
  Wire, Hello, control_channel_hello, Ack, Auth, FitsAuth, current_version, read_auth, digest, done,
  fail,
}
use rathole_x.Protocol
use rathole_x.Protocol.Reads.{read-serialize}
use rathole_x.Server.{
  Conn, ControlChannelHandle, ControlChannelMap, Server, proceed, digest_eq, remove1,
  insert_channel, new_handle, offer_nonce, check_auth, do_control_channel_handshake,
}
use rathole_x.Server.Digest.{digest_eq_iff}

-- Items searched by a key after one was dropped, or added at the end.
module _ {C K : Type 0} ⦃e : HasEq K⦄ (key : C → K) where
  find_by-drop_by_other :
      (j k : K) (cs : List C) → j ≢ k → find_by key j (drop_by key k cs) ≡ find_by key j cs
  find_by-drop_by_other j k [] d = refl
  find_by-drop_by_other j k (c ∷ cs) d = elim (==-cases (key c) k) [
    | inl (t, p) ↦ elim (==-cases (key c) j) [
      | inl (u, q) ↦ absurd (d (sym q ∙ p))
      | inr (u, q) ↦ rw (t, u) refl
    ]
    | inr (t, p) ↦ rw t (elim (Bool-cases (key c == j)) [
      | inl u ↦ rw u refl
      | inr u ↦ rw u (find_by-drop_by_other j k cs d)
    ])
  ]

  find_by-snoc_hit :
      (c : C) (cs : List C)
      → find_by key (key c) cs ≡ none
      → find_by key (key c) (cs ++ c ∷ []) ≡ some c
  find_by-snoc_hit c [] h = rw (eq_self (key c)) refl
  find_by-snoc_hit c (x ∷ cs) h = elim (Bool-cases (key x == key c)) [
    | inl t ↦ let bad : some x ≡ none = rw t at h in cc
    | inr t ↦ rw t (find_by-snoc_hit c cs (rw t at h))
  ]

  find_by-snoc_other :
      (j : K) (c : C) (cs : List C) → j ≢ key c → find_by key j (cs ++ c ∷ []) ≡ find_by key j cs
  find_by-snoc_other j c [] d = elim (==-cases (key c) j) [
    | inl (_, p) ↦ absurd (d (sym p))
    | inr (t, _) ↦ rw t refl
  ]
  find_by-snoc_other j c (x ∷ cs) d = elim (Bool-cases (key x == j)) [
    | inl t ↦ rw t refl
    | inr t ↦ rw t (find_by-snoc_other j c cs d)
  ]

abbrev pub ChannelItem : Type 0
ChannelItem = Item Text Text ControlChannelHandle

-- The table after a control channel superseded what its service had.
pub record Superseded (k1 k2 : Text) (h : ControlChannelHandle) (before after : ControlChannelMap)
    : Type 0 where
  pub by_service :
      (k : Text)
      → find_by {C = ChannelItem} Item.key1 k after ≡ (
          if k1 == k
          then some (record { key1 = k1; key2 = k2; val = h })
          else find_by {C = ChannelItem} Item.key1 k before)
  pub by_session :
      find_by {C = ChannelItem} Item.key2 k2 after ≡ some (record { key1 = k1; key2 = k2; val = h })

remove1-drop_by : (k : Text) (cs : ControlChannelMap) → remove1 k cs ≡ drop_by Item.key1 k cs
unfolding spec_step
remove1-drop_by k cs = refl

insert_channel-fresh :
    (k1 k2 : Text) (h : ControlChannelHandle) (cs : ControlChannelMap)
    → find_by {C = ChannelItem} Item.key1 k1 cs ≡ none
    → find_by {C = ChannelItem} Item.key2 k2 cs ≡ none
    → insert_channel k1 k2 h cs ≡ cs ++ record { key1 = k1; key2 = k2; val = h } ∷ []
unfolding spec_step
insert_channel-fresh k1 k2 h cs a b = ground (arith, a, b)

insert_channel-Superseded :
    (k1 k2 : Text) (h : ControlChannelHandle) (cs : ControlChannelMap)
    → Unique {C = ChannelItem} Item.key1 cs
    → find_by {C = ChannelItem} Item.key2 k2 (remove1 k1 cs) ≡ none
    → Superseded k1 k2 h cs (insert_channel k1 k2 h (remove1 k1 cs))
insert_channel-Superseded k1 k2 h cs u free =
    let left : ControlChannelMap = drop_by Item.key1 k1 cs in
    let gone : find_by {C = ChannelItem} Item.key1 k1 left ≡ none =
      find_by-drop_by Item.key1 k1 cs u in
    let free' : find_by {C = ChannelItem} Item.key2 k2 left ≡ none =
      rw (remove1-drop_by k1 cs) at free in
    let it : ChannelItem = record { key1 = k1; key2 = k2; val = h } in
    let after : insert_channel k1 k2 h (remove1 k1 cs) ≡ left ++ it ∷ [] =
      ap (insert_channel k1 k2 h) (remove1-drop_by k1 cs)
      ∙ insert_channel-fresh k1 k2 h left gone free' in
    subst (Superseded k1 k2 h cs) (sym after) (record {
      by_service = λ k. elim (==-cases k1 k) [
        | inl (t, e) ↦ rw t (
            ap (λ x. find_by {C = ChannelItem} Item.key1 x (left ++ it ∷ [])) (sym e)
            ∙ find_by-snoc_hit Item.key1 it left gone)
        | inr (t, d) ↦ rw t (
            find_by-snoc_other Item.key1 k it left (λ e. d (sym e))
            ∙ find_by-drop_by_other Item.key1 k k1 cs (λ e. d (sym e)))
      ];
      by_session = find_by-snoc_hit Item.key2 it left free';
    })

server_connected-known :
    (now : ℕ) (source_addr : SocketAddr) (name : Text) (r : RuntimeSnapshot) (st : ServerSnapshot)
    → get name r.services ≡ some (server st)
    → server_connected now name source_addr r
      ≡ (some now, (server_connected now name source_addr r).1)
unfolding server_connected
server_connected-known now source_addr name r st e = rw e refl

module _ (w : Wire) (now : ℕ) (source_addr : SocketAddr) (nonce service_digest : Text) where
  abbrev pub hello_bytes : List ℕ
  hello_bytes = w.hello.serialize (control_channel_hello current_version nonce)

  -- The peer of a service with a token answers with the token's digest, and the service is still
  -- registered when it does: the handshake then writes the hello and the ack `Ok` and nothing else,
  -- and the new channel is what both the service and the session key find, in place of the channel
  -- that the service had, with every other service's channel as it was. This takes a socket that
  -- accepts both writes, a table with one channel for each service, and a session key that no other
  -- service's channel has.
  pub do_control_channel_handshake-established :
      (meanwhile : Server → Server) (s : Server) (c : Conn) (cfg : ServerServiceConfig)
      (token : Text) (rest : List ℕ) (n : ℕ) (st : ServerSnapshot)
      → get service_digest s.services ≡ some cfg
      → cfg.token ≡ some token
      → c.input ≡ w.auth.serialize (record { digest = digest w (token ++ nonce) }) ++ rest
      → c.writes ≡ suc (suc n)
      → get cfg.name (meanwhile s).runtime.services ≡ some (server st)
      → Unique {C = ChannelItem} Item.key1 (meanwhile s).control_channels
      → find_by {C = ChannelItem} Item.key2
          (digest w (token ++ nonce))
          (remove1 service_digest (meanwhile s).control_channels)
        ≡ none
      → (s' : Server) × (do_control_channel_handshake w now source_addr nonce service_digest
            meanwhile s c
          ≡ proceed s' (record {
            input = rest;
            sent = (c.sent ++ hello_bytes) ++ w.ack.serialize Ack.ok;
            writes = n;
          }))
        × Superseded service_digest
            (digest w (token ++ nonce))
            (new_handle cfg source_addr now)
            (meanwhile s).control_channels
            s'.control_channels
        × (s'.runtime ≡ (server_connected now cfg.name source_addr (meanwhile s).runtime).1)
  unfolding do_control_channel_handshake offer_nonce check_auth
  do_control_channel_handshake-established meanwhile s c cfg token rest n st service has_token input
        room known u free =
      let key = digest w (token ++ nonce) in
      let t : digest_eq key key ≡ true = (digest_eq_iff key key refl).1 refl in
      let read : read_auth w c.input ≡ done (record { digest = key }, rest) =
        ap (read_auth w) input
        ∙ (read-serialize w (record { digest = key }) Ack.ok Protocol.create_data_channel
            Protocol.start_forward_tcp rest (w.sha256_width _)).0 in
      let runtime = (server_connected now cfg.name source_addr (meanwhile s).runtime).1 in
      let registered =
        server_connected-known now source_addr cfg.name (meanwhile s).runtime st known in
      (
        record {
          services = (meanwhile s).services;
          control_channels =
              insert_channel service_digest key (new_handle cfg source_addr now)
                (remove1 service_digest (meanwhile s).control_channels);
          runtime = runtime;
        },
        rw (room, service, has_token, read, t, registered) refl,
        insert_channel-Superseded service_digest key (new_handle cfg source_addr now)
            (meanwhile s).control_channels u free,
        refl,
      )
