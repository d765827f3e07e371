-- ===== src/Lib.antt =====
-- LMD, the Livestatus Multitool Daemon (lmd/*.go): it keeps the tables of many monitoring sites in
-- memory and answers livestatus queries over them, alone or as a cluster of nodes.
--
-- A client's request is read by lmd/request.go (Request, Request/Sort, Request/Header,
-- Request/Reader), its filters and statistics by lmd/filter.go (Filter/Parse, Filter/Parse/Value),
-- against the tables that lmd/objects.go sets up (Objects, Objects/Virtual, Objects/Schema). The
-- rows of each peer are matched and counted (MatchFilter in Filter/Match, MatchRowFilter in
-- Filter/Group, ApplyValue, createLocalStatsCopy and finalStatsApply in Filter/Stats, the row loop
-- of gatherResultRows in Response/Window), and lmd/response.go resolves columns and backends
-- (Response/Columns), compares rows (Response/Order) and applies offset and limit
-- (Response/Window). In a cluster lmd/nodes.go divides the backends among the nodes (Nodes,
-- Nodes/Assign, Nodes/Update) and lmd/request.go splits a request and merges the answers
-- (Distributed). What it sends to another node, buildDistributedRequestData with String of a filter
-- (Filter/Print), is read there by parseRequestDataToRequest of lmd/http.go (Http). A peer of
-- lmd/peer.go (Peer) keeps its status, its addresses and its timers, and checks the header of what
-- it reads (Peer/Header). Its rows are kept in tables (DataTable), which it updates from what the
-- site answers: UpdateObjectByType and the delta updates of hosts and services in
-- DataTable/Dynamic, UpdateDeltaCommentsOrDowntimes in DataTable/Entries; createIndex is in
-- DataTable/Index. initializePeers of lmd/main.go (Main) keeps, creates and drops peers for the
-- connections of the configuration. Prelude, Text and Runtime hold what the components share:
-- lists, integers, Go's maps and strings, its panics, its dynamic values, and in the record Go what
-- is not modelled of it.
--
-- A client's connection is served by lmd/listener.go (Listener): ParseRequests reads a batch of
-- requests, and ProcessRequests keeps commands until a query or the end of the batch.
--
-- Definitions bear the names of the Go functions and types in lower case with underscores. State is
-- passed and returned; a function that returns an error has a Result; a run-time panic and a call
-- of log.Panicf are errors of type Panic, which end the daemon. Parsers separate the two by the
-- type Failure of BadRequest, with one constructor for each message.
--
-- Bounds: integers of Go are integers without wrap-around, except in strconv.Atoi, which refuses
-- what does not fit 64 bits. Loops are recursion on the list they go through; fuel is that of the
-- decimal format, n + 1 rounds for n, of which each divides by ten, and that of the loop of
-- ParseRequests, which takes a line at least in each round. Text is a list of bytes,
-- and upper and lower case are those of ASCII. float64 and the package regexp are parameters (the
-- record Go of Runtime), with laws as hypotheses where a theorem needs them; Runtime/Sample has an
-- instance with integers for tests. sort.Sort is a parameter of PostProcessing, since Go leaves the
-- order of ties open. A map is an association list, whose order is one in which Go may go through
-- it. The time of a call is an argument, and what the network answers is one too.
--
-- Not modelled: sockets, HTTP, goroutines and locks, logging, the Prometheus counters, the dump
-- of stacks, the configuration files and the signals of lmd/main.go, the accepting of
-- connections, the HTTP server, QueryServer, which makes a new reader for each batch,
-- updateTimeperiodsData, the JSON encoding but for what it does to numbers and, as a parameter,
-- to texts (Http/Json), the queries by which a peer fills its tables, and what GetRowValue
-- computes for virtual columns; a row is given by its accessor.
mod Prelude
pub mod Text
pub mod Runtime
pub mod Objects
pub mod BadRequest
pub mod Filter
pub mod Request
pub mod Response
pub mod Distributed
pub mod Peer
pub mod Nodes
pub mod Main
pub mod DataTable
pub mod Http
pub mod Listener
