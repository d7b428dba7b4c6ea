-- ===== src/Client/Tests.antt =====
-- src/client.rs at concrete inputs.
use rathole_x.Base.{
  ℕ, ◌≡◌, ◌≢◌, ◌⊎◌, refl, Option, none, some, List, [], ◌∷◌, ◌++◌, Text, codes, is_some, arith,
}
use rathole_x.Config.{ServiceType}
use rathole_x.Protocol.{control_channel_hello, current_version, Ack, digest}
use rathole_x.Protocol.Sample.{sample_wire}
use rathole_x.Server.{Conn}
use rathole_x.Client.{establish, connected, failed, authentication_failed}
use rathole_x.Client.Handshake.{establish-acknowledged, shaken}
use rathole_x.Client.Rebuild.{run_all, latest_failures, three_in_a_row, run_all-three_in_a_row}

-- The nonce of a handshake.
abbrev nonce : Text
nonce = digest sample_wire []

abbrev token : Text
token = codes "secret"

abbrev server_end : Conn
server_end = record {
  input =
      sample_wire.hello.serialize (control_channel_hello current_version nonce)
      ++ (sample_wire.ack.serialize Ack.ok ++ []);
  sent = [];
  writes = 2;
}

establish-acknowledged_example :
    ((Ack.ok ≡ Ack.ok)
      × (establish sample_wire (9 ∷ []) (some token) server_end
          ≡ connected
              (digest sample_wire (token ++ nonce))
              (shaken sample_wire (9 ∷ []) token nonce [] 0 server_end)))
    ⊎ ((Ack.ok ≢ Ack.ok)
        × (establish sample_wire (9 ∷ []) (some token) server_end
            ≡ failed (authentication_failed Ack.ok)))
establish-acknowledged_example =
    establish-acknowledged sample_wire (9 ∷ []) token nonce Ack.ok [] server_end 0 refl
      (sample_wire.sha256_width []) refl

-- The latest three data channels failed, after one that was set up.
abbrev channels : List (Option (List ℕ))
channels = none ∷ none ∷ none ∷ some (0 ∷ []) ∷ []

run_all-three_in_a_row_example :
    ((run_all sample_wire ServiceType.tcp channels).consecutive_failures
      ≡ latest_failures sample_wire channels)
    × (is_some (run_all sample_wire ServiceType.tcp channels).force_rebuild
        ≡ three_in_a_row sample_wire channels)
run_all-three_in_a_row_example =
    run_all-three_in_a_row sample_wire ServiceType.tcp channels (omega arith)
