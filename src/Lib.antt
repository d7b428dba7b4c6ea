-- ===== src/Lib.antt =====
-- rathole-x is a reverse proxy: a server with a public address forwards the visitors of each
-- service to a client behind a NAT, over connections that the client opens. A client keeps one
-- control channel for each service; over it the server asks for data channels, and each data
-- channel carries one visitor's TCP connection, or the datagrams of a UDP service. A configuration
-- file is watched while the program runs, and changes of its services are handled without a restart.
--
-- The modules follow the files of src/.
--
-- - Base: names and lemmas that the others share. Numbers are natural numbers with the wrap of each
--   machine width written out (Base.Word), a string is its UTF-8 bytes, a HashMap is an association
--   list whose theorems hold for each order (Base.Dict), and equality tests are an instance argument.
-- - MultiMap: src/multi_map.rs, the map with two keys over raw pointers. State is a heap of boxes and
--   two tables of entries that point into it; `none` is undefined behaviour. MultiMap.Spec states
--   the contract on a list of items, the other modules below it prove that the code meets it.
-- - Protocol: src/protocol.rs, the messages and their framing. bincode and SHA-256 are crates: a
--   `Wire` is their operations with the laws that the code relies on, and Protocol.Sample has one. The
--   header of a datagram carries an IPv6 address without its flow label and scope.
-- - Config: src/config.rs, the data model and validation. The TOML parser is a parameter.
--   Config.Ready states, apart from the code, what validation asks of a section, and what the
--   constructors of src/transport need of it.
-- - Watcher: src/config_watcher.rs, the events that a changed configuration gives. Events for the
--   tasks of an instance are the `ConfigChange`s that Server handles. Watcher.Same says when two
--   configurations say the same, whatever the order of their maps.
-- - Status: src/runtime_status.rs, the registry that `status` reads. An operation is a function on the
--   snapshot, with the clock as an argument; it gives `none` where it panics. Status.Invariant
--   runs sequences of calls.
-- - Server: src/server.rs, the state that its tasks share (services by digest, control channels by
--   digest and by session key, registry), hot reload and the handshakes. Control channels stand
--   in the list of items of MultiMap's contract. A connection is the bytes that will arrive, those
--   written, and how many writes will succeed. A handshake has two halves, before and after the
--   peer's answer, and other tasks may change the shared state between them.
--   Server.Channel is the loop of a control channel: one step for each branch of the `select!`.
--   Server.Pool is the listener for visitors with the TCP pool, Server.UdpPool the UDP pool: a step
--   is what a task does between two awaits, and a run is a list of steps in any order. How long a
--   sender of data channels waits for room in the pool's queue is not modelled.
-- - Client: src/client.rs, hot reload, the handshake of a control channel, and the setup of data
--   channels, whose failures are counted and make the control channel rebuild itself. A connection
--   is Server's. Client.Control is the task of a control channel: its loop, and the loop that runs
--   it again; it uses the handshake of Client and the status operations of Status. Client.Udp is a
--   UDP data channel with its port map and a forwarder for each visitor.
-- - Instance: src/lib.rs, the role that a configuration runs in, and the loop that takes Watcher's
--   events: a whole configuration restarts the instance, a change of a service is sent to it.
-- - ConfigEdit: src/config_edit.rs, the commands that edit the configuration file. The toml_edit crate
--   is the interface ConfigEdit.Toml, operations with laws, and ConfigEdit.Sample has one. Spec parses
--   a service of the command line; Add is the batch of `config add`, Set is `config set`, with its
--   arguments from src/cli.rs in Args, Remove is `config remove`. Add and Set call Config's validation before
--   they save, Remove does not. The file is a state, for Add and Set with the texts that were
--   written to it, and whether a write succeeds is an argument. Add.Comments is about the comments
--   at the head of a new file: that TOML parsers ignore them is a hypothesis there.
--
-- No function of the model runs on fuel: loops over lists recur on the list, and the loops of tasks
-- are sequences of steps of any length. The count of outstanding requests of a control channel is
-- a `u32` and wraps in the model too; the theorems about it say for how many requests they hold.
--
-- Not modelled: sockets, timers of the back-off, TLS, Noise and websocket transports, the parser of
-- the command line, importing an old configuration and adding a service by prompts, rendering of the
-- status, and the services of the operating systems (src/platform). The hello/auth deadline of a
-- connection and the copying of a TCP connection's bytes, a library call, are not modelled.
pub mod Base
pub mod MultiMap
pub mod Protocol
pub mod Config
pub mod Watcher
pub mod Status
pub mod Server
pub mod Client
pub mod Instance
pub mod ConfigEdit
