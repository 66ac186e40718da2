-- ===== src/Lib.antt =====
-- Transparent Gateway: a model of its Python code, with the properties that make it correct.
--
-- The gateway sends the traffic of its clients through a pool of upstream proxies. Connectors
-- (validator/sources) collect candidates, which the fetcher publishes; the validator probes them; the
-- ranker (validator/ranking.py) orders them and picks an active pool; the egress relay
-- (gateway/egress_relay.py) reads that pool from Redis, chooses an upstream for each CONNECT request
-- and performs the handshake with it, with a user name and a password that the credential store
-- (common/credentials.py) looks up.
--
-- - Prelude: shared names, lists over the native numbers, equality tests, texts as code points.
-- - Python: what the code uses of the language: exceptions as values, JSON values, `int(…)`, `str`
--   methods, codecs. Python/Platform.antt has the record `Runtime` of what is not modelled: floats,
--   `ipaddress`, IDNA, `inet_pton` and `inet_aton`, the text of floats and containers.
-- - Wire: a connection as the bytes still to come, what ends them, and the bytes written.
-- - Credentials: common/credentials.py. A call gets the reading of the clock and of the file.
-- - Ranking: validator/ranking.py; Ranking/Greedy.antt is its specification.
-- - Relay: gateway/egress_relay.py. Pool is `class Pool`, Target the request parser, Handshake the
--   three handshakes and the DNS query, Upstream `connect_upstream`, Handle the client handler.
-- - Sources: validator/sources. Candidate is base.py, Connectors jsonl_inventory.py and
--   http_json_feed.py, Registry registry.py.
-- - Storage: validator/storage.py over a map of Redis keys. Workers: the cycles of
--   validator/ranker.py and validator/fetcher.py, and of validator/validator.py
--   (Validator the probe, Validator/Cycle the cycle).
-- - Probe: validator/proxy_probe.py: Anonymity the verdict, Tunnels the headers and the tunnels,
--   Chunked the chunked bodies, whose loop has as fuel one turn more than the stream has bytes.
--   Exchange is the request, the response and the two observations.
-- - Asn: validator/asn_resolver.py. Asn/Updater.antt is `update_once` of validator/asn_updater.py.
-- - Host: what the two scripts of the installation do to it. A command, a saved file and another
--   change of the file system are events; the machine says how each ends, by the events so far: it
--   returns, raises, or the process is killed there. The update's journal (transaction.json) and the
--   pinned images (images.json) are the state. Host/Ensures.antt has rules to reason about tasks.
-- - Tool: scripts/tgctl.py. Env the .env file, Settings the checks, Commands
--   `compose_command`, `run` and `load_and_validate`, Systemd the unit, Services `up`, `down` and
--   `wait`.
-- - Updater: scripts/tg_update.py. Commands and Images ask the installation, Candidate prepares a
--   version, Switch is `restore` and `update`, Quiet says which commands switch, and Journal says
--   what the two files may be at every point.
-- - Tests: runs on concrete inputs.
--
-- Choices: messages of exceptions are left out. Clock readings are whole numbers of one unit. Case,
-- spaces and digits are those of ASCII. A dict is an association list in insertion order, a set a
-- list. Structural equality stands for `==` where an entry is removed from a list. An IPv6 address has
-- no scope. Whether the lock of an update is free, what `str.split` gives, and how many turns the
-- deadline of `wait` leaves are arguments. A step of the ASN updater may raise; that its process is
-- killed is not modelled, as it is for the updater of the installation. Every loop is structural
-- recursion, over the slots of the pool, the entries, the attempts or the bytes; only the printing of
-- a number and the chunked bodies take fuel: the number itself, which is at least the number of its
-- digits, and a turn more than the stream has bytes.
--
-- Not modelled: client requests of the relay that interleave on its shared pool (a request is run
-- by itself, from any state of the pool), the copying of bytes through a tunnel, the Redis client,
-- the HTTP and TLS clients, the endless loops of the workers, the DNS helpers, `configure`,
-- `status` and `ready` of the command line tool with its argument parser, what the scripts print,
-- and the deployment scripts.
pub mod Prelude
pub mod Python
pub mod Wire
pub mod Credentials
pub mod Ranking
pub mod Relay
pub mod Sources
pub mod Asn
pub mod Probe
pub mod Storage
pub mod Workers
pub mod Host
pub mod Tool
pub mod Updater
pub mod Tests
