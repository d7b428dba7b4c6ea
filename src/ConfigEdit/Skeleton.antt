-- ===== src/ConfigEdit/Skeleton.antt =====
-- The comment at the head of a new configuration file.
use rathole_x.Base.{Text, codes}

unfoldable pub config_skeleton : Text
config_skeleton =
    codes
      "# rathole-x configuration file\n#\n# Each rathole-x process runs exactly one role: client or server. Use separate\n# configs and processes for both roles; a legacy dual-section config requires\n# an explicit `rathole-x run --client` or `rathole-x run --server`.\n#\n# Point a client at its server once, then add services:\n#   rathole-x config set --client --remote-addr <SERVER:PORT>\n#   rathole-x config add --client \"name:my-service;local:<HOST:PORT>\"\n#   rathole-x config add --server \"name:my-service;bind:<HOST:PORT>\"\n#\n# ---------------------------------------------------------------------------\n# Client side: connect to a rathole server and expose local services through it\n# ---------------------------------------------------------------------------\n#\n# [client]\n# remote_addr = \"example.com:2333\"   # control channel address of the server\n# # default_token = \"secret\"         # default token for every client service\n# # heartbeat_timeout = 40           # seconds before the control channel is declared dead\n# # retry_interval = 1               # seconds between reconnection attempts\n#\n# # Optional transport configuration (default is plain TCP):\n# # [client.transport]\n# # type = \"noise\"                   # tcp | tls | noise | websocket\n# # [client.transport.noise]\n# # remote_public_key = \"...\"        # the server's noise public key\n#\n# [client.services.my-service]\n# local_addr = \"127.0.0.1:80\"        # local address the traffic is forwarded to\n# # token = \"secret\"                 # overrides default_token\n# # type = \"tcp\"                     # tcp (default) or udp\n#\n# ---------------------------------------------------------------------------\n# Server side: accept clients and publish their services\n# ---------------------------------------------------------------------------\n#\n# [server]\n# bind_addr = \"0.0.0.0:2333\"         # control channel bind address\n# # default_token = \"secret\"         # default token for every server service\n# # heartbeat_interval = 30          # seconds between heartbeats\n#\n# # Optional transport configuration (default is plain TCP):\n# # [server.transport]\n# # type = \"noise\"                   # tcp | tls | noise | websocket\n# # [server.transport.noise]\n# # local_private_key = \"...\"        # generate with: rathole-x genkey\n#\n# [server.services.my-service]\n# bind_addr = \"0.0.0.0:80\"           # address the service is published on\n# # token = \"secret\"                 # overrides default_token\n# # type = \"tcp\"                     # tcp (default) or udp\n"
