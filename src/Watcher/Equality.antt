-- ===== src/Watcher/Equality.antt =====
-- The comparisons of src/config_watcher.rs that leave the services out.
use rathole_x.Base.{◌≡◌, refl, true, Option, Bool, Text, eq_self, nat_eq, text_eq, ℕ}
use rathole_x.Base.Dict.{Dict}
use rathole_x.Config.{
  ServerConfig, ClientConfig, ServerServiceConfig, ClientServiceConfig, TransportConfig,
}
use rathole_x.Watcher.{
  server_beq, client_beq, server_instance, client_instance, transport_eq, option_text_eq,
  option_bool_eq,
}

-- A server section compares equal, its services left out, to itself with other services.
pub server-equal_without_service :
    (c : ServerConfig) (m : Dict Text ServerServiceConfig)
    → server_instance.equal_without_service c (record c { services = m }) ≡ true
unfolding server_beq
server-equal_without_service c m =
    rw
      (
        eq_self {A = Text} c.bind_addr,
        eq_self {A = Option Text} c.default_token,
        eq_self {A = TransportConfig} c.transport,
        eq_self {A = ℕ} c.heartbeat_interval,
      )
      refl

pub client-equal_without_service :
    (c : ClientConfig) (m : Dict Text ClientServiceConfig)
    → client_instance.equal_without_service c (record c { services = m }) ≡ true
unfolding client_beq
client-equal_without_service c m =
    rw
      (
        eq_self {A = Text} c.remote_addr,
        eq_self {A = Option Text} c.default_token,
        eq_self {A = Option Bool} c.prefer_ipv6,
        eq_self {A = TransportConfig} c.transport,
        eq_self {A = ℕ} c.heartbeat_timeout,
        eq_self {A = ℕ} c.retry_interval,
      )
      refl
