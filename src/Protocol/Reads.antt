-- ===== src/Protocol/Reads.antt =====
-- The readers of src/protocol.rs give back what the peer wrote, with the rest of the stream.
use rathole_x.Base.{ℕ, ◌<◌, ◌≡◌, ◌∙◌, List, ◌++◌, length, if◌then◌else◌, ◌==◌, nat_eq, arith, codes}
use rathole_x.Protocol.{
  Wire, Hello, control_channel_hello, Auth, Ack, ControlChannelCmd, DataChannelCmd, FitsHello,
  FitsAuth, version, current_version, read_failed, version_mismatch, done, fail, hello_step,
  auth_step, ack_step, cmd_step, read_hello, read_auth, read_ack, read_control_cmd, read_data_cmd,
  digest, packet_len,
}
use rathole_x.Protocol.Stream.{read_message-append, read_message-short}

module _ (w : Wire) where
  -- The hello that `PacketLength::new` measures.
  abbrev measured : Hello
  measured = control_channel_hello current_version (digest w (codes "default"))

  measured-fits : FitsHello measured
  measured-fits = (omega arith, w.sha256_width _)

  -- From a stream that begins with an encoded hello, whose version is a byte and whose digest has
  -- 32 bytes, `read_hello` gives that hello and the bytes behind it if the version is the current
  -- one, and reports the mismatch if it is not.
  pub read_hello-serialize :
      (h : Hello) (rest : List ℕ)
      → FitsHello h
      → read_hello w (w.hello.serialize h ++ rest) ≡ (
          if version h == current_version
          then done (h, rest)
          else fail (version_mismatch (version h)))
  unfolding read_hello
  read_hello-serialize h rest fits = rw (
      read_message-append hello_step _ w.hello.deserialize (w.hello.serialize h) rest h
        (w.hello.size_exact measured ∙ w.hello_size measured h measured-fits fits)
        (w.hello.round_trip h fits))

  -- Each of the other four readers gives back the message that the stream begins with, and the
  -- bytes behind it; a digest has 32 bytes.
  pub read-serialize :
      (a : Auth) (k : Ack) (c : ControlChannelCmd) (d : DataChannelCmd) (rest : List ℕ)
      → FitsAuth a
      → (read_auth w (w.auth.serialize a ++ rest) ≡ done (a, rest))
        × (read_ack w (w.ack.serialize k ++ rest) ≡ done (k, rest))
        × (read_control_cmd w (w.c_cmd.serialize c ++ rest) ≡ done (c, rest))
        × (read_data_cmd w (w.d_cmd.serialize d ++ rest) ≡ done (d, rest))
  unfolding read_auth read_ack read_control_cmd read_data_cmd
  read-serialize a k c d rest fits = (
    read_message-append auth_step _ w.auth.deserialize _ rest a
        (w.auth.size_exact _ ∙ w.auth_size _ a (w.sha256_width _) fits) (w.auth.round_trip a fits),
    read_message-append ack_step _ w.ack.deserialize _ rest k (w.ack.size_exact _ ∙ w.ack_size _ k)
        (w.ack.round_trip k tt),
    read_message-append cmd_step _ w.c_cmd.deserialize _ rest c
        (w.c_cmd.size_exact _ ∙ w.c_cmd_size _ c) (w.c_cmd.round_trip c tt),
    read_message-append cmd_step _ w.d_cmd.deserialize _ rest d
        (w.d_cmd.size_exact _ ∙ w.d_cmd_size _ d) (w.d_cmd.round_trip d tt),
  )

  -- A stream that ends inside an encoded hello gives a read error, never a hello.
  pub read_hello-short :
      (h : Hello) (s : List ℕ)
      → FitsHello h
      → length s < length (w.hello.serialize h)
      → read_hello w s ≡ fail (read_failed hello_step)
  unfolding read_hello
  read_hello-short h s fits short =
      rw (read_message-short hello_step _ w.hello.deserialize s (size short))
    where
      size : length s < length (w.hello.serialize h) → length s < (packet_len w).hello
      size lt =
          omega (arith, w.hello.size_exact measured, w.hello_size measured h measured-fits fits)
