-- ===== src/Lib.antt =====
-- A model of the core of the Tempesta FW test framework (directory framework/): the deproxy, which
-- sends HTTP requests as a client, answers them as a server, and checks what Tempesta FW forwards
-- between the two; and the services and helpers around it.
--
-- How the parts interact. A test gives requests to a client (Client). `make_request` checks their
-- text with the message parser (Message) and hands it to the auto parser (AutoParser), which turns
-- it into the request that Tempesta FW is expected to forward. The server (Server) parses what it
-- reads, lets the auto parser compare it with the expected request, and queues its response, from
-- which the auto parser makes the response that is expected at the client. The client reads what
-- Tempesta FW answers, over HTTP/1 or from the events of the h2 package (Client/H2), and lets the auto
-- parser check it. Services have a life of start and stop (Stateful), a test holds them and cleans
-- them up (Suite), tests wait on conditions (Wait), bodies are coded in chunks (Chunked), the
-- configuration and the counters of Tempesta FW are texts (Config), and helpers look at captures,
-- memory and logs. Sockets are polled by a manager (Manager) in a thread of its own. Programs such as
-- curl send requests too (External), as the configuration of the run says (TfCfg), over interfaces
-- that a test may add or change (Network), and the files that they read are templates (Template).
--
-- Files, and the code that they are about:
--   Base            shared types; Python's exceptions as values of `Result` (Base/Outcome), lists on
--                   the native numbers, the integers and the Boolean tests
--   Text            Python's `str` as a list of code points, with the methods that the code calls,
--                   and numbers in texts
--   Headers         `HeaderCollection` of framework/deproxy/deproxy_message.py: lookup and change
--                   (Methods, Lookup), `from_stream` (Stream, RoundTrip, Lengths), `__eq__` (Compare,
--                   Symmetry, Termination), and collections as multimaps, a quotient (Multimap)
--   Message         `HttpMessage`, `Request`, `Response` and `H2Response` of the same file: body
--                   readers (Body, Reads), first lines and parsing (Parse, Termination, Lengths),
--                   printing (Print), comparison (Compare), the changes of a proxy (Change),
--                   and the messages that tests make (Create)
--   AutoParser      framework/deproxy/deproxy_auto_parser.py: the private methods (Expected), the
--                   state and the public ones (State), the headers of expected messages (Proxying),
--                   the recorded exceptions (Checks), and that checking ends (Termination)
--   Server          framework/deproxy/deproxy_server.py: reading (Termination), queueing and writing
--                   (Laws), a connection as a pipe of bytes (Pipe), bytes that are no text
--                   (Endless), and the server with its connections (Listening), which it lists until
--                   they are closed (Open); the wait of framework/services/base_server.py
--   Client          framework/deproxy/deproxy_client.py: requests and buffers (Sending, Counting,
--                   Progress), when to write (Rate), responses (Responses), the waits (Waits), statuses
--                   and error codes (Statuses), errors and closing (Errors), and the HTTP/2 settings
--                   (Settings)
--   Client/H2       `DeproxyClientH2` of the same file: its state and the h2 package (Library),
--                   `make_request`, `send_bytes` and the frames of the connection (Requests, Aligned),
--                   `_send_data` (Writing, Frames, Sent, Stuck), `_handle_read` (Reading, Kept,
--                   Termination), the SETTINGS frames (Initial), and the search of a header in the
--                   last response (Search)
--   Deproxy         framework/deproxy/deproxy_base.py: numbers, and the lock of start and stop
--   Manager         framework/deproxy/deproxy_manager.py: the manager's state and a round of polling;
--                   its thread and the thread of the tests, which share a lock, as steps (Threads), the
--                   history of the lock (Serial), and when it is free again (Settling)
--   Stateful        framework/services/stateful.py
--   Suite           framework/test_suite/tester.py: what a test holds (State), its clean-up (Cleanup,
--                   Laws), the names of tcpdump files (Capture), the asserts that wait (Asserts), how
--                   clients are made (Creation), and the addresses that they get (Aliases)
--   Wait, Chunked   framework/helpers/util.py; the waits that end in an assertion (Wait/Asserting)
--   Template        `fill_template` of the same file
--   External        framework/services/base_client.py, framework/services/curl_client.py (Curl: the
--                   output, Curl/Command: the command line, Curl/Counting: the counters) and
--                   framework/services/wrk_client.py (Wrk)
--   TfCfg           framework/helpers/tf_cfg.py: options, defaults (Defaults), and the levels of loggers
--                   (Logging)
--   Network         framework/helpers/networker.py: aliases and routes (Address, Interfaces), and the
--                   settings that a test changes and restores (Restore, Restored)
--   Helpers         framework/helpers/analyzer.py (Analyzer, Segmentation),
--                   framework/helpers/memworker.py (Memory), framework/helpers/access_log.py and
--                   framework/helpers/dmesg.py (AccessLog), and framework/helpers/port_checks.py (Ports)
--   Config          framework/services/tempesta.py: server groups and their list (Groups), the counters
--                   of /proc/tempesta (Stats), and what is read of a configuration (Parse)
--   Tests           tests of the definitions, and the theorems at concrete inputs
--
-- Conventions. A method that changes its object returns the new object. A stream is the text that
-- is left of it. A method that may raise returns a `Result`; what the code catches is matched on.
-- `None` is `none`. Case mapping and white space are those of ASCII, and bytes are code points: a
-- client's texts and its bytes are taken for the same.
-- What the code takes from elsewhere is a parameter: the parsing of dates (`time.strptime`), the
-- reason phrases of `http.server`, the number of bytes a socket takes, the clock and the conditions
-- of the waits, the measurements of memory, what a service's own procedures do, the version, the
-- address and the configuration that the auto parser reads, the errors and the TLS of sockets, the
-- h2 package (a record of operations over connections of any type, with what `decode` makes of the
-- bytes of its events), the generator of certificates, what the clean-up of a test meets on the
-- nodes, the parsing of header fields by `email` and of statistics by `json`, the files of programs
-- that were run, the environment, the decoding of the bytes that a server reads, the interpolation of
-- `ConfigParser`, the commands on the nodes with what they raise, and the settings of
-- interfaces, which a command that raised nothing has set.
--
-- Bounds and fuel. Loops over a stream take as many rounds as it has characters, and one more: each
-- round takes at least one character; the loops that read requests and responses take one for each
-- character of the buffer, and one more, which is enough for a server's buffer of ASCII bytes. The
-- HTTP/2 client's reading calls itself for each text that the socket gives, and once more. The waits
-- take fuel for the ticks of the timeout.
-- `encode_loop` takes a round for each character and one more, and the search of a header takes at
-- each place a round for each byte of the buffer and one more. A loop out of fuel raises `no_fuel`,
-- which no code of the program raises. Numbers are the native naturals and the integers over them,
-- as Python's integers have no bound.
--
-- Not modelled: sockets, tasks and running programs, logging but for the levels, the creation of a
-- test's servers from their descriptions, commands over ssh, the external servers,
-- command line and pytest support, the text of log records, and the suites of tests. Threads are
-- modelled where they share a lock, and what changes their world without the lock is any call at any
-- time. framework/deproxy/asyncore.py is a copy of a standard library
-- module, and tools/mhddos one of another project's tool.
pub mod Base
pub mod Text
pub mod Headers
pub mod Message
pub mod AutoParser
pub mod Stateful
pub mod Suite
pub mod Wait
pub mod Chunked
pub mod Template
pub mod Helpers
pub mod Config
pub mod Server
pub mod Client
pub mod Deproxy
pub mod Manager
pub mod Network
pub mod TfCfg
pub mod External
mod Tests
