-- ===== src/Lib.antt =====
-- A model of the Python conformance oracles of this repository, under integration/. The oracles are
-- independent of the Lean library that they check: each reads PDUs of the classic S7 protocol, or
-- the history of a connection, and says what a correct client must have made of them.
--
-- The parts, and the files that model them:
-- - Prelude, Error, Bytes: shared. Error has Python's exceptions by class, without their texts;
--   Bytes has `struct.pack`, `int.to_bytes` and `int.from_bytes`, range errors included. A byte
--   string is a list of numbers, and an octet test stands where Python makes one.
-- - Json: the values of `json.loads`, with `shape`, `integer` and `octets` of
--   integration/conversation_conformance.py.
-- - Conversation: integration/conversation_conformance.py. Input has `memory_range`, `location` and
--   `wire`; Wire has `address`, `packet`, `payload` and `request`; History is the state machine in
--   the body of `trace`, one function for each kind of event; Trace has the checks on each event
--   and the loop.
-- - Session: integration/session_conformance.py. Config is `configuration`, Response is `response`,
--   Machine has `finish`, `fail` and a function for each event of `trace`, Trace the loop. The local
--   variables that `trace` rebinds are the fields of State.
-- - Sequence: integration/sequence_conformance.py. Sections, Request, Multi and Userdata are
--   `sections`, `check_request`, `decode_multi` and `decode_conversation`.
-- - Management: `decode` and `request` of integration/management_conformance.py.
-- - Operation: integration/operation_conformance.py.
-- - Value: integration/value_conformance.py. Octets, Integer and Clock are `octets`,
--   `decode_integer` and the clock functions. `datetime.datetime` is a parameter, which is relied on
--   to refuse fields that no calendar has. The input of `decode_integer` is the integer that its
--   decimal text stands for. The BCD digits are computed for four digits; a clock that passes
--   validation needs two.
-- - Queue: integration/queued_batches.py. Plan is `_batches` with `_payload`: Planned has the
--   variables that the loop rebinds, and an oversized item is divided on fuel, its size, which is
--   enough since each piece holds an octet at least. Wire is `_wire`,
--   `_check` and `_reply`, with `_ack` of integration/multi_batching.py.
-- - Retry: `expected_attempts` of integration/retry_budgets.py and the loop of its `_serve` over the
--   attempts, without the sockets. The modes are those that the program runs.
-- - Reconnect: `Case` of integration/reconnect_faults.py and `expected` of
--   integration/generative_reconnect.py. The modes and faults are those that the programs run.
-- - Reducer: `minimize` of integration/mixed_operations.py (minimize) and of
--   integration/session_fuzz.py (minimize_all). The predicate is a parameter that raises nothing.
--   Their while loops run on fuel. The budget plus one is enough for the first, since each round
--   makes an attempt; for the second, the square of the length and the length, since a deletion
--   shortens the list. The theorems of both say that a result is returned.
-- - Framing: `_exact`, `_receive`, `_send` and `_request` of integration/multi_batching.py. Boundary:
--   `_handshake` and `_closed` of integration/boundary_operations.py. A connection is the octets
--   that are yet to arrive on it, with how it ends where that matters; whether `recv` returns them
--   one by one or in longer pieces makes no difference to the loops that collect them.
-- - Requests: the request checks of three peers: `_check` of integration/retry_budgets.py,
--   `_operation` of integration/reconnect_faults.py and `_check` of integration/mixed_operations.py,
--   with the comparison that the three share as one function.
-- - Overlap: integration/overlap_operations.py. Peer is `_check_request`, `_read`, `_write` and the
--   loop of `_serve`. The connection is the list of the requests that the client sends before it
--   closes, and each round of a loop takes one, so that no fuel is needed. Addresses, sizes and
--   arguments are natural numbers.
-- - Emulator: `MultiItemServer` of integration/run.py. Server has its state and the parameter Snap7,
--   which stands for the classes and constants of python-snap7; Areas are the read and write
--   handlers, Szl the lists that are sent in fragments, Blocks the block information and the clock,
--   Upload the uploads. A handler returns its reply and the state behind it, also where it raises.
--   A client address is of any type with decidable equality, and a dict over it is a function.
-- - Peer: the PDUs that the socket peers of the integration programs build.
-- - Agreement: theorems across oracles that read or write one wire format.
-- - Tests: the theorems at concrete inputs.
--
-- The sections above interact by calls only: Session and Sequence use the ranges and the encoder of
-- Conversation. A list that Python mutates is a value here, since every one that is stored is copied
-- first (`deepcopy`). All loops not named above run over lists or ranges. Numbers that the sources
-- take from checked JSON are natural numbers. A `zip` with strict=True keeps its error where no
-- length test stands in front of it.
--
-- Not modelled: sockets, threads, subprocesses, command lines, reading and writing of files, and the
-- self tests of the checkers.
pub mod Prelude
pub mod Error
pub mod Bytes
pub mod Json
pub mod Conversation
pub mod Sequence
pub mod Session
pub mod Management
pub mod Operation
pub mod Value
pub mod Peer
pub mod Queue
pub mod Retry
pub mod Emulator
pub mod Reconnect
pub mod Reducer
pub mod Framing
pub mod Boundary
pub mod Requests
pub mod Overlap
pub mod Agreement
pub mod Tests
