-- ===== src/Protocol/Udp.antt =====
-- Datagrams over a data channel: `UdpTraffic` of src/protocol.rs, as the loops of src/server.rs and
-- src/client.rs read it, a length byte first.
use rathole_x.Base.{
  ℕ, zero, suc, ◌+◌, ◌-◌, ◌%◌, ◌≤◌, ◌<◌, ◌≡◌, refl, ◌∙◌, List, [], ◌∷◌, ◌++◌, length, take, drop,
  ltb, arith, length-append, take-append_le, drop-append_le, take-all, drop-all, take-append_add,
  length-take, dec_lt, All, false, map,
}
use mathlib.Core.List.{append_assoc}
use native.Mathlib.Nat.{mod-eq_of_lt}
use rathole_x.Protocol.{
  Wire, UdpTraffic, SocketAddr, carried, header_of, write, write_slice, read, Result, done, fail,
  read_failed, read_exact, udp_header_step, udp_data_step, ◌>>=◌, Error,
}
use rathole_x.Protocol.Stream.{read_exact-append, read_exact-short}
use rathole_x.Base.Word.{u16, u8}

-- A datagram as the other side gets it.
abbrev pub delivered : UdpTraffic → UdpTraffic
delivered t = record { from = carried t.from; payload = t.payload }

module _ (w : Wire) where
  -- `read_u8` and `UdpTraffic::read`, as in `run_data_channel_for_udp`.
  pub read_packet : List ℕ → Result (UdpTraffic × List ℕ)
  read_packet [] = fail (read_failed udp_header_step)
  read_packet (n ∷ s) = read w n s

  pub write_all : List UdpTraffic → List ℕ
  write_all [] = []
  write_all (t ∷ ts) = write w t ++ write_all ts

  pub read_all : ℕ → List ℕ → Result (List UdpTraffic × List ℕ)
  read_all zero s = done ([], s)
  read_all (suc n) s = do (t, s') ← read_packet s; (ts, rest) ← read_all n s'; done (t ∷ ts, rest)

  -- Reading the first `n` bytes of a payload.
  split :
      (n : ℕ) (payload rest : List ℕ)
      → n ≤ length payload
      → read_exact udp_data_step n (payload ++ rest) ≡ done (take n payload, drop n payload ++ rest)
  unfolding read_exact
  split n payload rest h =
      let t : ltb (length (payload ++ rest)) n ≡ false =
        ground (arith, length-append payload rest) in
      rw (t, take-append_le n payload rest h, drop-append_le n payload rest h)

  header_read :
      (from : SocketAddr) (payload rest : List ℕ)
      → read_packet (write_slice w from payload ++ rest) ≡ (
          read_exact udp_data_step (u16 (length payload)) (payload ++ rest) >>= λ r.
          done (record { from = carried from; payload = r.0 }, r.1))
  unfolding read_packet write_slice read
  header_read from payload rest =
      let hdr = header_of w from payload in
      let v = w.udp_header.serialize hdr in
      let one_byte : u8 (length v) ≡ length v = mod-eq_of_lt (w.header_size hdr) in
      rw (
        one_byte,
        append_assoc v payload rest,
        read_exact-append udp_header_step (length v) v (payload ++ rest) refl,
        w.udp_header.round_trip hdr (omega arith),
      )

  -- Whatever its length, a datagram that was written is read back as its first
  -- `len mod 2^16` bytes, and the bytes cut off stay in the stream in front of the next frame; its
  -- sender is read back with the flow label and the scope of an IPv6 address set to 0.
  pub read_packet-write_slice :
      (from : SocketAddr) (payload rest : List ℕ)
      → let n = length payload % 65536 in
        read_packet (write_slice w from payload ++ rest)
        ≡ done (record { from = carried from; payload = take n payload }, drop n payload ++ rest)
  read_packet-write_slice from payload rest =
      let n = length payload % 65536 in
      rw (header_read from payload rest, split n payload rest (omega arith))

  -- A datagram of less than 64 KiB is read back whole.
  read_packet-write :
      (t : UdpTraffic) (rest : List ℕ)
      → length t.payload < 65536
      → read_packet (write w t ++ rest) ≡ done (delivered t, rest)
  unfolding write write_slice
  read_packet-write t rest small =
      read_packet-write_slice t.from t.payload rest
      ∙ rw (mod-eq_of_lt small, take-all t.payload, drop-all t.payload)

  -- Datagrams of less than 64 KiB that are written one after the other are read back in order,
  -- each with its sender, whose flow label and scope are 0 if it is an IPv6 address, up to the byte
  -- behind the last.
  pub read_all-write_all :
      (ts : List UdpTraffic) (rest : List ℕ)
      → All (λ t. length t.payload < 65536) ts
      → read_all (length ts) (write_all ts ++ rest) ≡ done (map delivered ts, rest)
  unfolding read_all write_all
  read_all-write_all [] rest a = refl
  read_all-write_all (t ∷ ts) rest a = rw (
    append_assoc (write w t) (write_all ts) rest,
    read_packet-write t (write_all ts ++ rest) a.0,
    read_all-write_all ts rest a.1,
  )

  cut_short :
      (from : SocketAddr) (payload : List ℕ) (m : ℕ)
      → m < length (w.udp_header.serialize (header_of w from payload))
      → read w
          (length (w.udp_header.serialize (header_of w from payload)))
          (take m (w.udp_header.serialize (header_of w from payload) ++ payload))
        ≡ fail (read_failed udp_header_step)
  unfolding read
  cut_short from payload m lt =
      let v = w.udp_header.serialize (header_of w from payload) in
      let fits : m ≤ length (v ++ payload) = omega (arith, length-append v payload) in
      rw (
        read_exact-short udp_header_step (length v) (take m (v ++ payload))
          (omega (arith, length-take m (v ++ payload) fits)))

  -- What `read` makes of the first `m` bytes behind the length byte.
  cut_header :
      (from : SocketAddr) (payload : List ℕ) (m : ℕ)
      → length payload < 65536
      → (k : ℕ) → k < length payload
      → m ≡ length (w.udp_header.serialize (header_of w from payload)) + k
      → read w
          (length (w.udp_header.serialize (header_of w from payload)))
          (take m (w.udp_header.serialize (header_of w from payload) ++ payload))
        ≡ fail (read_failed udp_data_step)
  unfolding read
  cut_header from payload m small k lt e =
      let hdr = header_of w from payload in
      let v = w.udp_header.serialize hdr in
      rw (
        e,
        take-append_add k v payload,
        read_exact-append udp_header_step (length v) v (take k payload) refl,
        w.udp_header.round_trip hdr (omega arith),
        read_exact-short udp_data_step (u16 (length payload)) (take k payload)
            (omega (arith, length-take k payload (omega arith))),
      )

  -- A datagram of less than 64 KiB whose frame the stream cuts off anywhere is never delivered.
  pub read_packet-cut :
      (from : SocketAddr) (payload : List ℕ) (n : ℕ)
      → length payload < 65536
      → n < length (write_slice w from payload)
      → (e : Error) × (read_packet (take n (write_slice w from payload)) ≡ fail e)
  unfolding read_packet write_slice
  read_packet-cut from payload zero small h = (read_failed udp_header_step, refl)
  read_packet-cut from payload (suc m) small h =
      let v = w.udp_header.serialize (header_of w from payload) in
      let one_byte : u8 (length v) ≡ length v =
        mod-eq_of_lt (w.header_size (header_of w from payload)) in
      let sum : length (v ++ payload) ≡ length v + length payload = length-append v payload in
      elim (dec_lt m (length v)) [
        | yes lt ↦ (read_failed udp_header_step, rw one_byte (cut_short from payload m lt))
        | no ge ↦ (
          read_failed udp_data_step,
          rw one_byte (cut_header from payload m small (m - length v) (omega arith) (omega arith)),
        )
      ]
