-- ===== src/ConfigEdit/Args.antt =====
-- The arguments of `config set` in src/cli.rs, and what `run_set` of src/config_edit.rs checks of them.
use rathole_x.Base.{
  ℕ, Bool, true, false, not, ◌||◌, Option, none, some, if◌then◌else◌, is_some, Text, text_eq, codes,
}
use rathole_x.ConfigEdit.{
  Side, client, server, Error, both_sections, side_required, wrong_side, invalid_address,
  invalid_proxy, Outcome, refused, done, ◌>>=◌, refuse_if,
}
use rathole_x.ConfigEdit.Spec.{valid_host_port}

pub data TransportTypeArg : Type 0 where
  tcp tls noise websocket : TransportTypeArg

abbrev pub transport_key : TransportTypeArg → Text
transport_key tcp = codes "tcp"
transport_key tls = codes "tls"
transport_key noise = codes "noise"
transport_key websocket = codes "websocket"

pub record SetArgs : Type 0 where
  pub client_flag : Bool
  pub server_flag : Bool
  pub remote_addr : Option Text
  pub bind_addr : Option Text
  pub default_token : Option Text
  pub prefer_ipv6 : Option Bool
  pub heartbeat_timeout : Option ℕ
  pub retry_interval : Option ℕ
  pub heartbeat_interval : Option ℕ
  pub transport : Option TransportTypeArg
  pub noise_flag : Bool
  pub noise_key : Option Text
  pub trusted_root : Option Text
  pub hostname : Option Text
  pub pkcs12 : Option Text
  pub pkcs12_password : Option Text
  pub ws_tls : Option Bool
  pub nodelay : Option Bool
  pub keepalive_secs : Option ℕ
  pub keepalive_interval : Option ℕ
  pub proxy : Option Text

abbrev pub side_of_sections : Bool → Bool → Outcome Side
side_of_sections true false = done client
side_of_sections false true = done server
side_of_sections true true = refused both_sections
side_of_sections false false = refused side_required

abbrev pub tls_requested : SetArgs → Bool
tls_requested a =
    is_some a.trusted_root || is_some a.hostname || is_some a.pkcs12 || is_some a.pkcs12_password

abbrev pub tcp_requested : SetArgs → Bool
tcp_requested a =
    is_some a.nodelay || is_some a.keepalive_secs || is_some a.keepalive_interval || is_some a.proxy

abbrev pub transport_requested : SetArgs → Bool
transport_requested a =
    is_some a.transport
    || a.noise_flag
    || is_some a.noise_key
    || tls_requested a
    || is_some a.ws_tls
    || tcp_requested a

abbrev pub any_field : SetArgs → Bool
any_field a =
    is_some a.remote_addr
    || is_some a.bind_addr
    || is_some a.default_token
    || is_some a.prefer_ipv6
    || is_some a.heartbeat_timeout
    || is_some a.retry_interval
    || is_some a.heartbeat_interval
    || transport_requested a

-- The fields of the other side are refused.
abbrev pub check_side : Side → SetArgs → Outcome (Unit {0})
check_side client a = refuse_if (is_some a.bind_addr) (wrong_side (codes "--bind-addr")) >>= λ _.
    refuse_if (is_some a.heartbeat_interval) (wrong_side (codes "--heartbeat-interval")) >>= λ _.
    refuse_if (is_some a.pkcs12 || is_some a.pkcs12_password) (wrong_side (codes "--pkcs12"))
    >>= λ _. refuse_if a.noise_flag (wrong_side (codes "--noise"))
check_side server a =
    refuse_if (is_some a.remote_addr) (wrong_side (codes "--remote-addr")) >>= λ _.
    refuse_if (is_some a.prefer_ipv6) (wrong_side (codes "--prefer-ipv6")) >>= λ _.
    refuse_if (is_some a.heartbeat_timeout) (wrong_side (codes "--heartbeat-timeout")) >>= λ _.
    refuse_if (is_some a.retry_interval) (wrong_side (codes "--retry-interval")) >>= λ _.
    refuse_if (is_some a.trusted_root || is_some a.hostname) (wrong_side (codes "--trusted-root"))
    >>= λ _. refuse_if (is_some a.noise_key) (wrong_side (codes "--noise-key"))

abbrev pub check_text : (Text → Bool) → (Text → Error) → Option Text → Outcome (Unit {0})
check_text ok e none = done tt
check_text ok e (some s) = refuse_if (not (ok s)) (e s)

abbrev pub check_values : (Text → Bool) → (Text → Bool) → SetArgs → Outcome (Unit {0})
check_values socket_addr proxy_url a =
    check_text (valid_host_port socket_addr) invalid_address a.remote_addr >>= λ _.
    check_text (valid_host_port socket_addr) invalid_address a.bind_addr >>= λ _.
    check_text proxy_url invalid_proxy a.proxy

-- `--transport`, or the type that another flag implies.
abbrev pub transport_type : SetArgs → Option TransportTypeArg
transport_type a = by_flag a.transport
  where
    by_flag : Option TransportTypeArg → Option TransportTypeArg
    by_flag (some t) = some t
    by_flag none =
        if a.noise_flag || is_some a.noise_key
        then some noise
        else if tls_requested a
        then some tls
        else if is_some a.ws_tls
        then some websocket
        else none
