-- ===== src/Lib.antt =====
-- A model of the L2TPv3 control daemon `xcesp-l2tpv3d`, with its properties.
--
-- The daemon speaks the control protocol of RFC 3931 with its peers. A datagram is a control message:
-- a header and a list of attribute-value pairs (AVPs), some of which may be hidden under a keystream,
-- the whole signed where a password is configured. A `Peer` per remote side numbers, acknowledges,
-- retransmits and reorders messages; the AVPs that it delivers drive a state machine per tunnel and one
-- per session; these answer with actions: messages to send, timers, and netdevs of the dataplane. A
-- `Tunnel` joins the three: it decodes datagrams, hands messages to its peer and machines and executes
-- their actions. The `Daemon` holds the tunnels that the configuration lists, gives each datagram to the
-- tunnel whose connection id it carries, and ticks all of them.
--
-- Which module models which part (paths from the repository's root):
--
--   Exception       the `raise` statements, and results of functions that may raise
--   Struct          the formats of the standard library's `struct` that are used
--   Crypto          `hashlib` and `hmac`, a parameter: digests are functions of their input, have the
--                   documented size and are made of bytes; no more is assumed
--   Hiding          xcesp_l2tpv3d/avp.py: `_hide_value`, `_unhide_value`, `_generate_keystream`
--   AttrType, MessageType, Avp, Attribute
--                   xcesp_l2tpv3d/avp.py: the numbers, `AVP` with `encode`, `decode_one` and
--                   `decode_sequence`, `find_avp`, the `build_*` and `decode_*` functions
--   Message, SequenceNumber
--                   xcesp_l2tpv3d/messages.py: `ControlMessage`, `seq_delta`, `seq_advance`
--   TunnelMessage, SessionMessage
--                   xcesp_l2tpv3d/messages.py: the AVP lists of each message and their parsers
--   Auth, Signing   xcesp_l2tpv3d/auth.py, and the signing methods of `ControlMessage`
--   ReorderBuffer, Peer
--                   xcesp_l2tpv3d/transport.py: the class `Peer`
--   TunnelFsm       xcesp_l2tpv3d/tunnel_fsm.py
--   SessionFsm      xcesp_l2tpv3d/session_fsm.py
--   Dataplane       xcesp_l2tpv3d/dataplane.py: the parameters, `MockDataplane`, the interface that a
--                   tunnel calls, and `IpCommandDataplane` over `subprocess.run` as a parameter
--   Config          xcesp_l2tpv3d/config.py: the data classes (Config), the values that `tomllib` gives and
--                   the conversions (Value, Convert, Check), `_parse_session` (Session),
--                   `_parse_tunnel` and `_parse_tunnels` (Tunnel), `_parse_global` and the end of
--                   `_parse` (Load)
--   Tunnel          xcesp_l2tpv3d/main.py, the class `Tunnel`: its state and `__init__` (Tunnel), a method
--                   as a function on that state (Effect), `_send` and `_execute_actions` (Execute),
--                   the choice of a session (Correlate), `start`, `close`, `handle_datagram`,
--                   `tick` and `_dispatch_session_message` (Dispatch)
--   Daemon          xcesp_l2tpv3d/main.py, the class `Daemon`: `start`, `stop`, `_dispatch_datagram` and a
--                   round of `_tick_loop`
--   Process         xcesp_l2tpv3d/main.py: `main` and `_async_main`, up to the loops of the daemon; what
--                   the operating system does is a parameter
--   Common          shared names, lists and tests over the native numbers, signed numbers
--   Examples        runs on concrete data
--
-- How the model stands to the code: a method that changes its object is a function to the state after
-- it; one that may raise gives a `Result`, or, where the state may have changed before it raises, the
-- state and a `Result`. A `str` is its UTF-8 bytes, and a text that only informs (the reason of a
-- teardown) is a constructor. An `IntEnum` member is its number. A time is a number of milliseconds in
-- place of a float of seconds; `now - sent_at < rto` is written `now < sent_at + rto`. Integers are not
-- negative, so that the tests `x < 0` of the code have no counterpart; where a configuration gives a
-- negative speed, the session gets 2^64, which its AVP refuses alike.
--
-- The tunnels share the transport, the clock and the dataplane: `Shared` holds the datagrams that were
-- handed to the transport, the time and the state of the dataplane, whose operations are a parameter. A
-- session is kept once, under its local id, and `_sessions_by_remote` names it by that id, since both
-- dicts of the code hold one object. A timer handle is the time at which it runs out; a cancelled one is
-- none. An entry of the dict of tunnels stands in a list, in the order of insertion. The `asyncio` tasks
-- never interleave within a method, so that a run of the daemon is a sequence of turns.
--
-- A text of a configuration is the bytes of its UTF-8 encoding, and its floats are whole milliseconds, an
-- infinity or no number. `int` and `float` of a text, `str` of a value that is no text and the
-- recognition of IPv6 addresses are parameters, of which nothing is assumed; IPv4 addresses,
-- `bytes.fromhex` and `bool` are written out.
--
-- Loops: `decode_loop` has the length of the buffer as fuel (a round takes six bytes at least),
-- `keystream_loop` the wanted length (a round adds sixteen bytes), `drain` the number of buffered
-- messages (a round takes one out). That this is enough is part of the theorems: what would run out
-- of fuel is `out_of_fuel`, which is no `ValueError`, or leaves the awaited message in the buffer.
--
-- Not modelled: the sockets and queues of the transports, the `asyncio` tasks, the signal and command line
-- handling of main.py and `sd_notify`, which are input and output; the TOML parser and the reading of the
-- file, which are the library's; logging; `generate_nonce`, a call of `os.urandom`.
pub mod AttrType
pub mod Attribute
pub mod Auth
pub mod Avp
pub mod Common
pub mod Config
pub mod Crypto
pub mod Daemon
pub mod Dataplane
pub mod Examples
pub mod Exception
pub mod Hiding
pub mod Message
pub mod MessageType
pub mod Peer
pub mod Process
pub mod ReorderBuffer
pub mod SequenceNumber
pub mod SessionFsm
pub mod SessionMessage
pub mod Signing
pub mod Struct
pub mod Tunnel
pub mod TunnelFsm
pub mod TunnelMessage
