-- ===== src/Lib.antt =====
-- Cisco NETCONF MAC DB: model-driven telemetry of switches, from the dial-out stream to the tables
-- that the web application searches.
--
-- The program has three processes. The collector (collector/main.go) receives telemetry messages
-- over gRPC, parses them into entries and publishes those as JSON to four Kafka topics. The
-- consumer (consumer/main.go) reads the topics and writes four tables, and deletes rows that are
-- older than their lifetime. The web application (webapp/) answers queries over the tables.
--
-- Wire is the JSON between the first two: what the collector's payload structs are encoded as by
-- their tags, and how the consumer's structs are decoded from it, over flat objects. The texts of
-- objects and of times are parameters.
--
-- Proto models the messages of proto/telemetry.pb.go that the collector reads: a tree of fields,
-- with the getters. Payload has the entries that both processes declare alike.
--
-- Collector is collector/main.go. Collector/IfName is expandIfName; Nested is findNestedField; Mask
-- is maskToPrefixLen; Walk is isIfaceNode and collectInterfaces; Mac, Arp, Iface and Vlan are
-- publishMAC, publishARP, publishInterface and publishVlan, the first two over the loop of Leaves;
-- Publish is buildMsg and publish; Stream is dispatch and MdtDialout. The Kafka client is a
-- function that says which message it acknowledges after which others, and sending is an action on
-- the list of the acknowledged messages. JSON (see Wire), protobuf and the parser of IP addresses
-- are parameters. Debug and log output is left out, but for ConnLog, the bytes that connLogConn
-- logs. Fallback is a shared description of values that are set by the last field that has them, or
-- else by the first fallback.
--
-- Consumer is consumer/main.go. Batch is the loop that consumeMACBatch and consumeARPBatch share,
-- and Dynamic its two instances; Interface and Vlan are handleInterface and handleVlan with their
-- upsert statements over a table as an association list; Claim is ConsumeClaim; Cleanup is
-- startCleanup. The decoder of JSON and the success of a statement are parameters or parts of an
-- event. Tables are keyed as in migrations/001_init.sql.
--
-- Webapp is webapp/. Tokens is internal/tokens: the table api_tokens with its statements, the
-- handlers, and BearerOrSAML; Search is internal/search, with its regular expressions in Patterns
-- and its query in Sql; Admin is hasAdminRole of webapp/saml.go with the wrappers protect and
-- protectAdmin of webapp/main.go; DbView is internal/dbview, the table browser; Ports is
-- internal/portinfo, internal/portlookup, internal/vlans and internal/rdns, over the tables of
-- Consumer. Shell puts them together: the modules with their routes and links, the index page and
-- the merged OpenAPI document of webapp/main.go and webapp/spec.go. The SELECT statements are
-- functions of the tables: WHERE is a filter, a LEFT JOIN a lookup of all rows that fit, ORDER BY a
-- stable sort, DISTINCT ON the first row of each key. Hash, encoding, calendar, resolver, decoders,
-- sessions, ILIKE and the collation of texts are parameters, and a statement may fail.
--
-- Texts are lists of bytes. A uint32 or uint64 of the code is a natural number, narrowed by `% 2 ^
-- w` where the code converts it; times are integers of milliseconds. The walk over a telemetry tree
-- has the number of the tree's fields as its fuel, and each round uses up one field. All other
-- loops recurse on a list: the messages of a stream, the rounds of a `select`, the ticks of the
-- cleanup, the terms of a search. Trimming and matching a host name take at least one byte of the
-- text in each round, and have its length as fuel.
--
-- Not modelled: the set-up of the processes (main, envOr, newKafkaProducer, the SAML set-up), debug
-- output, the generated gRPC stubs, and of the web application the pages, the text of the OpenAPI
-- fragments, /api/me and the logout.
pub mod Common
pub mod Proto
pub mod Payload
pub mod Wire
pub mod Collector
pub mod Consumer
pub mod Webapp
