-- ===== src/Protocol/Sample.antt =====
-- A concrete encoding that meets the laws which src/protocol.rs relies on: a tag, then the fields.
use rathole_x.Base.{
  ℕ, zero, suc, ◌+◌, ◌<◌, ◌≡◌, refl, sym, ◌∙◌, Option, none, some, List, [], ◌∷◌, length, replicate,
  arith,
}
use rathole_x.Protocol.{
  Wire, Hello, control_channel_hello, data_channel_hello, Ack, ok, service_not_exist, auth_failed,
  ControlChannelCmd, create_data_channel, heart_beat, DataChannelCmd, start_forward_tcp,
  start_forward_udp, UdpHeader, SocketAddr, v4, v6, FitsHello, FitsAny, Digest, hash_width, carried,
}

abbrev encode_hello : Hello → List ℕ
encode_hello (control_channel_hello v d) = 0 ∷ v ∷ d
encode_hello (data_channel_hello v d) = 1 ∷ v ∷ d

abbrev decode_hello : List ℕ → Option Hello
decode_hello (zero ∷ v ∷ d) = some (control_channel_hello v d)
decode_hello (suc _ ∷ v ∷ d) = some (data_channel_hello v d)
decode_hello (_ ∷ []) = none
decode_hello [] = none

abbrev encode_ack : Ack → List ℕ
encode_ack ok = 0 ∷ []
encode_ack service_not_exist = 1 ∷ []
encode_ack auth_failed = 2 ∷ []

abbrev decode_ack : List ℕ → Option Ack
decode_ack (zero ∷ _) = some ok
decode_ack (suc zero ∷ _) = some service_not_exist
decode_ack (suc (suc _) ∷ _) = some auth_failed
decode_ack [] = none

abbrev encode_c_cmd : ControlChannelCmd → List ℕ
encode_c_cmd create_data_channel = 0 ∷ []
encode_c_cmd heart_beat = 1 ∷ []

abbrev decode_c_cmd : List ℕ → Option ControlChannelCmd
decode_c_cmd (zero ∷ _) = some create_data_channel
decode_c_cmd (suc _ ∷ _) = some heart_beat
decode_c_cmd [] = none

abbrev encode_d_cmd : DataChannelCmd → List ℕ
encode_d_cmd start_forward_tcp = 0 ∷ []
encode_d_cmd start_forward_udp = 1 ∷ []

abbrev decode_d_cmd : List ℕ → Option DataChannelCmd
decode_d_cmd (zero ∷ _) = some start_forward_tcp
decode_d_cmd (suc _ ∷ _) = some start_forward_udp
decode_d_cmd [] = none

abbrev encode_header : SocketAddr → ℕ → List ℕ
encode_header (v4 a p) n = 0 ∷ a ∷ p ∷ n ∷ []
encode_header (v6 a p f s) n = 1 ∷ a ∷ p ∷ n ∷ []

abbrev decode_header : List ℕ → Option UdpHeader
decode_header (zero ∷ a ∷ p ∷ n ∷ []) = some (record { from = v4 a p; len = n })
decode_header (suc _ ∷ a ∷ p ∷ n ∷ []) = some (record { from = v6 a p 0 0; len = n })
decode_header _ = none

hello_rt : (h : Hello) → FitsHello h → decode_hello (encode_hello h) ≡ some h
hello_rt (control_channel_hello v d) f = refl
hello_rt (data_channel_hello v d) f = refl

ack_rt : (a : Ack) → FitsAny a → decode_ack (encode_ack a) ≡ some a
ack_rt ok f = refl
ack_rt service_not_exist f = refl
ack_rt auth_failed f = refl

c_cmd_rt : (a : ControlChannelCmd) → FitsAny a → decode_c_cmd (encode_c_cmd a) ≡ some a
c_cmd_rt create_data_channel f = refl
c_cmd_rt heart_beat f = refl

d_cmd_rt : (a : DataChannelCmd) → FitsAny a → decode_d_cmd (encode_d_cmd a) ≡ some a
d_cmd_rt start_forward_tcp f = refl
d_cmd_rt start_forward_udp f = refl

header_rt :
    (from : SocketAddr) (n : ℕ)
    → decode_header (encode_header from n) ≡ some (record { from = carried from; len = n })
header_rt (v4 a p) n = refl
header_rt (v6 a p f s) n = refl

hello_len : (h : Hello) → FitsHello h → length (encode_hello h) ≡ 34
hello_len (control_channel_hello v d) f = omega arith
hello_len (data_channel_hello v d) f = omega arith

ack_len : (a : Ack) → length (encode_ack a) ≡ 1
ack_len ok = refl
ack_len service_not_exist = refl
ack_len auth_failed = refl

c_cmd_len : (a : ControlChannelCmd) → length (encode_c_cmd a) ≡ 1
c_cmd_len create_data_channel = refl
c_cmd_len heart_beat = refl

d_cmd_len : (a : DataChannelCmd) → length (encode_d_cmd a) ≡ 1
d_cmd_len start_forward_tcp = refl
d_cmd_len start_forward_udp = refl

header_len : (from : SocketAddr) (n : ℕ) → length (encode_header from n) < 256
header_len (v4 a p) n = omega arith
header_len (v6 a p f s) n = omega arith

-- Not SHA-256: a digest of the right width, which depends on the first byte alone.
abbrev sample_digest : List ℕ → Digest
sample_digest [] = replicate 32 0
sample_digest (b ∷ _) = replicate 32 (b + 1)

sample_width : (m : List ℕ) → length (sample_digest m) ≡ hash_width
sample_width [] = refl
sample_width (b ∷ _) = refl

unfoldable pub sample_wire : Wire
unfolding hello_rt ack_rt c_cmd_rt d_cmd_rt header_rt hello_len ack_len c_cmd_len d_cmd_len
    header_len sample_width
sample_wire = record {
  hello = record {
    serialize = encode_hello;
    serialized_size = λ h. length (encode_hello h);
    deserialize = decode_hello;
    size_exact = λ h. refl;
    round_trip = hello_rt;
  };
  auth = record {
    serialize = λ a. a.digest;
    serialized_size = λ a. length a.digest;
    deserialize = λ s. some (record { digest = s });
    size_exact = λ a. refl;
    round_trip = λ a _. refl;
  };
  ack = record {
    serialize = encode_ack;
    serialized_size = λ a. length (encode_ack a);
    deserialize = decode_ack;
    size_exact = λ a. refl;
    round_trip = ack_rt;
  };
  c_cmd = record {
    serialize = encode_c_cmd;
    serialized_size = λ a. length (encode_c_cmd a);
    deserialize = decode_c_cmd;
    size_exact = λ a. refl;
    round_trip = c_cmd_rt;
  };
  d_cmd = record {
    serialize = encode_d_cmd;
    serialized_size = λ a. length (encode_d_cmd a);
    deserialize = decode_d_cmd;
    size_exact = λ a. refl;
    round_trip = d_cmd_rt;
  };
  udp_header = record {
    serialize = λ h. encode_header h.from h.len;
    deserialize = decode_header;
    round_trip = λ h _. header_rt h.from h.len;
  };
  sha256 = sample_digest;
  hello_size = λ a b fa fb. hello_len a fa ∙ sym (hello_len b fb);
  auth_size = λ a b fa fb. fa ∙ sym fb;
  ack_size = λ a b. ack_len a ∙ sym (ack_len b);
  c_cmd_size = λ a b. c_cmd_len a ∙ sym (c_cmd_len b);
  d_cmd_size = λ a b. d_cmd_len a ∙ sym (d_cmd_len b);
  header_size = λ h. header_len h.from h.len;
  sha256_width = sample_width;
}
