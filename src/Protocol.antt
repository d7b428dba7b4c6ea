-- ===== src/Protocol.antt =====
-- src/protocol.rs: the messages of the control plane and their framing on a byte stream. `bincode`
-- and SHA-256 are crates, so `Wire` takes them as operations with the laws that the code relies on.
-- A stream is the list of the bytes that will still arrive before its end.
pub mod Stream
pub mod Udp
pub mod Reads
pub mod Sample
pub mod Tests
use rathole_x.Base.{
  ℕ, ◌<◌, ◌≡◌, Bool, true, false, Option, none, some, List, [], ◌∷◌, ◌++◌, length, take, drop, ltb,
  if◌then◌else◌, ◌==◌, nat_eq, Text, codes,
}
use rathole_x.Base.Word.{u8, u16}
pub use rathole_x.Base.Net.{SocketAddr, v4, v6}

-- `HASH_WIDTH_IN_BYTES`
abbrev pub hash_width : ℕ
hash_width = 32

-- `CURRENT_PROTO_VERSION`
abbrev pub current_version : ℕ
current_version = 1

abbrev pub Digest : Type 0
Digest = List ℕ

pub data Hello : Type 0 where
  control_channel_hello : ℕ → Digest → Hello
  data_channel_hello : ℕ → Digest → Hello

pub record Auth : Type 0 where
  pub digest : Digest

pub data Ack : Type 0 where
  ok service_not_exist auth_failed : Ack

-- `Display for Ack`
abbrev pub ack_text : Ack → Text
ack_text ok = codes "Ok"
ack_text service_not_exist = codes "Service not exist"
ack_text auth_failed = codes "Incorrect token"

pub data ControlChannelCmd : Type 0 where
  create_data_channel heart_beat : ControlChannelCmd

pub data DataChannelCmd : Type 0 where
  start_forward_tcp start_forward_udp : DataChannelCmd

pub record UdpHeader : Type 0 where
  pub from : SocketAddr
  pub len : ℕ

pub record UdpTraffic : Type 0 where
  pub from : SocketAddr
  pub payload : List ℕ

abbrev pub version : Hello → ℕ
version (control_channel_hello v d) = v
version (data_channel_hello v d) = v

abbrev pub hello_digest : Hello → Digest
hello_digest (control_channel_hello v d) = d
hello_digest (data_channel_hello v d) = d

-- What a value of each message type is in Rust: a version is a `u8`, a digest an array of 32 bytes.
abbrev pub FitsHello : Hello → Type 0
FitsHello h = (version h < 256) × (length (hello_digest h) ≡ hash_width)

abbrev pub FitsAuth : Auth → Type 0
FitsAuth a = length a.digest ≡ hash_width

abbrev pub FitsHeader : UdpHeader → Type 0
FitsHeader h = h.len < 65536

abbrev pub FitsAny : {A : Type 0} → A → Type 0
FitsAny a = Unit

-- `bincode::{serialize, serialized_size, deserialize}` at one type.
pub record Codec (A : Type 0) (Fits : A → Type 0) : Type 0 where
  pub serialize : A → List ℕ
  pub serialized_size : A → ℕ
  pub deserialize : List ℕ → Option A
  pub size_exact : (a : A) → serialized_size a ≡ length (serialize a)
  pub round_trip : (a : A) → Fits a → deserialize (serialize a) ≡ some a

-- The address that arrives: serde writes an IPv6 socket address as its IP address and port, and reads
-- it back with flow label 0 and scope 0.
abbrev pub carried : SocketAddr → SocketAddr
carried (v4 ip port) = v4 ip port
carried (v6 ip port flow scope) = v6 ip port 0 0

pub record HeaderCodec : Type 0 where
  pub serialize : UdpHeader → List ℕ
  pub deserialize : List ℕ → Option UdpHeader
  pub round_trip :
      (h : UdpHeader)
      → FitsHeader h
      → deserialize (serialize h) ≡ some (record { from = carried h.from; len = h.len })

-- The types but the UDP header have one encoded size each, and a header encodes to a few bytes.
pub record Wire : Type 0 where
  pub hello : Codec Hello FitsHello
  pub auth : Codec Auth FitsAuth
  pub ack : Codec Ack FitsAny
  pub c_cmd : Codec ControlChannelCmd FitsAny
  pub d_cmd : Codec DataChannelCmd FitsAny
  pub udp_header : HeaderCodec
  pub sha256 : List ℕ → Digest
  pub hello_size :
      (a b : Hello)
      → FitsHello a
      → FitsHello b
      → length (hello.serialize a) ≡ length (hello.serialize b)
  pub auth_size :
      (a b : Auth) → FitsAuth a → FitsAuth b → length (auth.serialize a) ≡ length (auth.serialize b)
  pub ack_size : (a b : Ack) → length (ack.serialize a) ≡ length (ack.serialize b)
  pub c_cmd_size :
      (a b : ControlChannelCmd) → length (c_cmd.serialize a) ≡ length (c_cmd.serialize b)
  pub d_cmd_size : (a b : DataChannelCmd) → length (d_cmd.serialize a) ≡ length (d_cmd.serialize b)
  pub header_size : (h : UdpHeader) → length (udp_header.serialize h) < 256
  pub sha256_width : (m : List ℕ) → length (sha256 m) ≡ hash_width

-- What a failing call was doing.
pub data Step : Type 0 where
  hello_step auth_step ack_step cmd_step udp_header_step udp_data_step : Step

pub data Error : Type 0 where
  read_failed : Step → Error
  deserialize_failed : Step → Error
  version_mismatch : ℕ → Error

pub data Result {ℓ} (A : Type ℓ) : Type ℓ where
  done : A → Result A
  fail : Error → Result A

infixl 5 ◌>>=◌
abbrev pub ◌>>=◌ {ℓ κ} : {A : Type ℓ} {B : Type κ} → Result A → (A → Result B) → Result B
done a >>= f = f a
fail e >>= f = fail e

abbrev pub or_fail {ℓ} : {A : Type ℓ} → Error → Option A → Result A
or_fail e none = fail e
or_fail e (some a) = done a

-- `read_exact` into a buffer of `n` bytes: what was read, and the rest of the stream.
pub read_exact : Step → ℕ → List ℕ → Result (List ℕ × List ℕ)
read_exact what n s =
    if ltb (length s) n then fail (read_failed what) else done (take n s, drop n s)

-- The body that the `read_*` functions share.
pub read_message {ℓ} : {A : Type ℓ} → Step → ℕ → (List ℕ → Option A) → List ℕ → Result (A × List ℕ)
unfolding read_exact
read_message what n decode s = do
  (buf, rest) ← read_exact what n s
  a ← or_fail (deserialize_failed what) (decode buf)
  done (a, rest)

pub record PacketLength : Type 0 where
  pub hello : ℕ
  pub ack : ℕ
  pub auth : ℕ
  pub c_cmd : ℕ
  pub d_cmd : ℕ

module _ (w : Wire) where
  -- `digest`
  abbrev pub digest : List ℕ → Digest
  digest m = w.sha256 m

  -- `PacketLength::new`
  abbrev pub packet_len : PacketLength
  packet_len =
      let d = digest (codes "default") in
      record {
        hello = w.hello.serialized_size (control_channel_hello current_version d);
        ack = w.ack.serialized_size ok;
        auth = w.auth.serialized_size (record { digest = d });
        c_cmd = w.c_cmd.serialized_size create_data_channel;
        d_cmd = w.d_cmd.serialized_size start_forward_tcp;
      }

  pub read_hello : List ℕ → Result (Hello × List ℕ)
  unfolding read_message
  read_hello s = do
    (h, rest) ← read_message hello_step packet_len.hello w.hello.deserialize s
    if version h == current_version then done (h, rest) else fail (version_mismatch (version h))

  pub read_auth : List ℕ → Result (Auth × List ℕ)
  unfolding read_message
  read_auth s = read_message auth_step packet_len.auth w.auth.deserialize s

  pub read_ack : List ℕ → Result (Ack × List ℕ)
  unfolding read_message
  read_ack s = read_message ack_step packet_len.ack w.ack.deserialize s

  pub read_control_cmd : List ℕ → Result (ControlChannelCmd × List ℕ)
  unfolding read_message
  read_control_cmd s = read_message cmd_step packet_len.c_cmd w.c_cmd.deserialize s

  pub read_data_cmd : List ℕ → Result (DataChannelCmd × List ℕ)
  unfolding read_message
  read_data_cmd s = read_message cmd_step packet_len.d_cmd w.d_cmd.deserialize s

  abbrev pub header_of : SocketAddr → List ℕ → UdpHeader
  header_of from payload = record { from = from; len = u16 (length payload) }

  -- `UdpTraffic::write_slice`: the bytes that it writes.
  pub write_slice : SocketAddr → List ℕ → List ℕ
  write_slice from payload =
      let v = w.udp_header.serialize (header_of from payload) in u8 (length v) ∷ (v ++ payload)

  -- `UdpTraffic::write`
  pub write : UdpTraffic → List ℕ
  write t =
      let v = w.udp_header.serialize (header_of t.from t.payload) in
      u8 (length v) ∷ (v ++ t.payload)

  -- `UdpTraffic::read`
  pub read : ℕ → List ℕ → Result (UdpTraffic × List ℕ)
  unfolding read_exact
  read hdr_len s = do
    (buf, s') ← read_exact udp_header_step hdr_len s
    hdr ← or_fail (deserialize_failed udp_header_step) (w.udp_header.deserialize buf)
    (payload, rest) ← read_exact udp_data_step hdr.len s'
    done (record { from = hdr.from; payload = payload }, rest)
