-- ===== src/Lib.antt =====
-- Verification of ebpf-probe, a Go host agent that collects events from eBPF programs, recognises
-- and parses the application protocols in them, keeps performance counters, and ships the events
-- in batches to an edge service.
--
-- The parts of the program. The collectors (internal/collector) read what the eBPF programs (bpf)
-- and the system report. They hand captured bytes to the protocol parsers (pkg/protocol), each a
-- set of functions from a byte slice to a value or an error, and the events they build to a
-- writer (internal/output), which batches them. The analysers (pkg/perf) are counters that the
-- collectors feed and that are read as rankings. The parsers see bytes from the network and so
-- must stand any input; the writer must not lose events.
--
-- Which file models which part.
--   Prelude and its children: Go's outcomes (a value, an error or a run-time panic), byte
--     slices with the accesses that panic out of range, two's complement integers, the string
--     functions of the Go library that the parsers use, decimal numbers.
--   Protocol/Mysql: pkg/protocol/mysql.go. Mysql.antt has the parsers (parse_mysql_packet for
--     ParseMySQLPacket, and so on), Bounds the safety, RoundTrip the wire format, Command the
--     statement keyword.
--   Protocol/Http2 and Protocol/Hpack: pkg/protocol/http2.go, the frames and the header
--     decoder. The dynamic table of HPACKDecoder is the state that decode takes and returns.
--   Protocol/Redis: pkg/protocol/redis.go: values and their sizes (Redis.antt, Wire,
--     RoundTrip, Total, Faults), commands and their categories (Commands), inline commands
--     (Inline).
--   Protocol/Kafka: pkg/protocol/kafka.go: headers (Wire), the topic of a request (Topics),
--     safety (Safety).
--   Protocol/Tls: pkg/protocol/https.go: records and the ClientHello (Tls.antt), names and the
--     record test (Names), GetTLSInfo and CheckHTTPOverTLS (Info), the inputs that crash
--     (Safety), the wire format (Wire, RoundTrip).
--   Protocol/Dubbo: pkg/protocol/dubbo.go: the header (Dubbo.antt, Header) and
--     Hessian2Decoder, whose state is its offset (Hessian).
--   Protocol/Sniffer: pkg/protocol/sniffer.go: detect_protocol for DetectProtocol, with the
--     tests on ports and payload; what it answers (Detection).
--   Perf: pkg/perf/analyzer.go: the counters (Counters) and the rankings (TopN). A Go map is
--     an association list.
--   Output/ClickHouse: internal/output/clickhouse.go: the writer over a database that is an
--     argument, the order and size of its batch (Rows) and what is stored (Stored).
--   Output/Multi: internal/output/multi.go and the interface of output.go: multi_writer makes
--     a writer of several; its child Isolation.
--   Output/Edge: internal/output/edge.go: batching, retries and drops (Delivery), the sleep
--     between retries (Backoff). How marshalling and the HTTP post go is an argument of each
--     call; starting and closing (Shutdown); several goroutines at once as a step relation
--     (Concurrent), with its invariant (Conservation). There the retry counter, which the code
--     changes without its lock, is loaded and stored in steps of their own.
--   Collector/Vtap: internal/collector/vtap.go: the capture files (Pcap) against a
--     specification (Pcap/Capture), the forwarder with its batches (Forwarder, Order), the
--     packet parser (Packet), and the configuration and the life cycle (Life).
--   Collector/Manager: internal/collector/manager.go over any implementation of the interface
--     Collector, and what it finds under a name (Lookup).
--   Collector/Docker: internal/collector/docker.go: the map from processes to containers
--     (Mapper) and the reading of cgroup paths (Paths).
--   Collector/PingTrace: internal/collector/pingtrace.go: tracePath against the list of its
--     rounds (Path), and its statistics (Stats). What each request gets back is an argument.
--   Collector/Trace: internal/collector/tls_trace.go, http2_trace.go and log_collect.go: the
--     loop over the samples (Loop), what reaches the writers behind a MultiWriter (Written)
--     and the database (Stored), and Init, Start and Stop (Life). What the ring buffer gives
--     is a list of turns, each with the read that it makes.
--   Collector/Cloud: internal/collector/cloud_metadata.go: the tests for the clouds, the
--     metadata of each, and what Init and Start leave, against a table of the services'
--     addresses (Detected). What the services answer is a record.
--   Kernel: internal/kernel/detector.go: the capabilities and the list of hooks (Hooks), over
--     the machine's answers.
--   Offset: pkg/offset/detector.go: the structures and the query (Offset.antt) against one
--     table (Table), the detection (Detect) against the list of its sources (Sources). What
--     the machine answers is a record, Machine.
--   K8s: internal/k8s: the look-ups of client.go in the informers' stores, which are arguments
--     (Client, Pods), and the enricher of enricher.go over any cache that behaves as
--     documented (Enricher): its keys (Keys), what its cache can hold (Cached, Reached) and
--     what an event gets (Answers).
--
-- How the code is rendered. A Go function that returns a value and an error is a function into
-- Outcome, whose third case is a panic, so that an index or a slice out of range shows. A method
-- that changes its receiver takes and returns the state. A slice's capacity is taken to be its
-- length, and int to have 64 bits; a conversion or a product that can wrap around is written with
-- its modulus. Structs keep their fields, except the ones that hold a lock, a client of a
-- library, a channel or what is only handed to these.
--
-- Bounds and fuel. Loops over the input are structural where the code drops what it has read, and
-- otherwise recursion on fuel: the decoder of header blocks and the parser of nested Redis arrays
-- have theorems that a number of rounds that depends on the length of the input only is enough,
-- and the fuel of the executable definitions is at least that.
--
-- Not modelled: the network, files, perf buffers, goroutines and locks (a locked method is one
-- step, and calls do not overlap, but for the edge client in Output/Edge/Concurrent); packages
-- outside the repository; formatting of log lines and of JSON; making the Kubernetes client and
-- its informers; the search of /proc for processes with a TLS library, which only logs; the
-- command of cmd/probe, which reads the configuration and starts the parts; the eBPF programs in
-- C.
pub mod Prelude
pub mod Protocol
pub mod Perf
pub mod Output
pub mod Kernel
pub mod Collector
pub mod Offset
pub mod K8s
