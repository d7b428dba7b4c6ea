-- ===== src/Protocol/Tests.antt =====
-- Messages and datagrams of src/protocol.rs under a concrete encoding.
use rathole_x.Base.{ℕ, ◌≡◌, refl, List, [], ◌∷◌, ◌++◌, take, replicate, arith, nat_eq}
use rathole_x.Protocol.{
  Hello, data_channel_hello, auth_failed, heart_beat, start_forward_udp, UdpTraffic, v4, v6, done,
  fail, read_failed, hello_step, read_hello, read_auth, read_ack, read_control_cmd, read_data_cmd,
  Error, write_slice, version_mismatch,
}
use rathole_x.Protocol.Reads.{read_hello-serialize, read-serialize, read_hello-short}
use rathole_x.Protocol.Udp.{
  read_packet, read_packet-write_slice, read_all, write_all, read_all-write_all, read_packet-cut,
}
use rathole_x.Protocol.Sample.{sample_wire}

abbrev nonce : List ℕ
nonce = replicate 32 7

abbrev old_hello : Hello
old_hello = data_channel_hello 0 nonce

abbrev packets : List UdpTraffic
packets =
    record { from = v4 127 53; payload = 1 ∷ 2 ∷ 3 ∷ [] }
    ∷ record { from = v6 1 9000 0 0; payload = [] }
    ∷ record { from = v4 127 53; payload = 9 ∷ [] }
    ∷ []

read_hello-serialize_example :
    read_hello sample_wire (sample_wire.hello.serialize old_hello ++ 4 ∷ [])
    ≡ fail (version_mismatch 0)
read_hello-serialize_example =
    read_hello-serialize sample_wire old_hello (4 ∷ []) (omega arith, refl)

read-serialize_example :
    (read_auth sample_wire (sample_wire.auth.serialize (record { digest = nonce }) ++ 4 ∷ [])
      ≡ done (record { digest = nonce }, 4 ∷ []))
    × (read_ack sample_wire (sample_wire.ack.serialize auth_failed ++ 4 ∷ [])
        ≡ done (auth_failed, 4 ∷ []))
    × (read_control_cmd sample_wire (sample_wire.c_cmd.serialize heart_beat ++ 4 ∷ [])
        ≡ done (heart_beat, 4 ∷ []))
    × (read_data_cmd sample_wire (sample_wire.d_cmd.serialize start_forward_udp ++ 4 ∷ [])
        ≡ done (start_forward_udp, 4 ∷ []))
read-serialize_example =
    read-serialize sample_wire (record { digest = nonce }) auth_failed heart_beat start_forward_udp
      (4 ∷ []) refl

old_hello_cut : read_hello sample_wire (0 ∷ 1 ∷ 7 ∷ []) ≡ fail (read_failed hello_step)
unfolding sample_wire
old_hello_cut =
    read_hello-short sample_wire old_hello (0 ∷ 1 ∷ 7 ∷ []) (omega arith, refl) (omega arith)

read_packet-write_slice_example :
    read_packet sample_wire (write_slice sample_wire (v4 127 53) (5 ∷ 6 ∷ []) ++ 8 ∷ [])
    ≡ done (record { from = v4 127 53; payload = 5 ∷ 6 ∷ [] }, 8 ∷ [])
read_packet-write_slice_example =
    read_packet-write_slice sample_wire (v4 127 53) (5 ∷ 6 ∷ []) (8 ∷ [])

read_all-write_all_example :
    read_all sample_wire 3 (write_all sample_wire packets ++ 8 ∷ []) ≡ done (packets, 8 ∷ [])
read_all-write_all_example = read_all-write_all sample_wire packets (8 ∷ []) (omega arith)

read_packet-cut_example :
    (e : Error) × (read_packet sample_wire
        (take 6 (write_slice sample_wire (v4 127 53) (5 ∷ 6 ∷ [])))
      ≡ fail e)
unfolding write_slice sample_wire
read_packet-cut_example =
    read_packet-cut sample_wire (v4 127 53) (5 ∷ 6 ∷ []) 6 (omega arith) (omega arith)
