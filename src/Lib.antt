-- ===== src/Lib.antt =====
-- A model of the algorithm gateway, with the theorems that make it correct.
--
-- The program. The gateway takes HTTP requests, turns their parameters into a protobuf message,
-- sends it by gRPC to a service of the right type, and answers in JSON. It learns of the services
-- from a register center: it goes online there at its start, gets the addresses of the services that
-- it relies on, is notified of changes, sends a heartbeat every three seconds and compares notes
-- every thirty, and goes offline before it exits.
--
-- The parts, and where they are modelled:
--   Common/RegisterCenter/Options.go          RegisterCenter/Options
--   Common/RegisterCenter/ServiceResolver.go  RegisterCenter/Resolver
--   Common/RegisterCenter/UnifiedClient.go    RegisterCenter/Client
--   Common/RegisterCenter/RegisterCenter.go   RegisterCenter/Center, RegisterCenter/Center/Init
--   Common/RegisterCenter/ServiceBalancer.go  RegisterCenter/Balancer
--   Common/AddrLimiter/AddrLimiter.go         GateWay/Limiter
--   Common/logger/logger.go                   Logger
--   Common/GateWayProtos                      Protos
--   Common/LoadJson.go, GateWay/Config.go     GateWay/App/Config
--   GateWay/HTTPMessage/Common.go             GateWay/Values, GateWay/Http
--   GateWay/HTTPMessage/kvmap2pb.go           GateWay/Numbers, GateWay/Texts, GateWay/Fields
--   GateWay/HTTPMessage/HttpMessage.go,
--   GateWay/HTTPMessage/download_message.go   GateWay/Http/Handlers
--   GateWay/GrpcMessage.go                    GateWay/App/Grpc
--   GateWay/Application.go, GateWay/main.go   GateWay/App/Setup, GateWay/App/Lifecycle,
--                                             GateWay/App/Entry
-- A function keeps its name, in lower case with underscores (`updateAddr` is `update_addr`); a method
-- takes its object and returns the new one beside its result. The modules below a part hold the
-- theorems about it, and Tests runs them on concrete inputs.
--
-- How it is modelled. A string and a byte slice are lists of bytes, an error is its text, a signed
-- number is an integer with its range written out where it matters, a map is an association list in
-- the order in which `range` meets its entries. `common_request_v3` is a chain of stages, one for each
-- early return, then the call, then what is made of its result. `Start` is a step relation: calls and
-- cron jobs come in any order and number between going online and exiting, and the network may answer
-- each step differently. An operation that the source guards by a lock is one step.
--
-- RegisterCenter/Directory is the specification of the clients: a function from a service and an
-- address to a weight, which an announcement changes at one place. GateWay/App/Lifecycle/Replays
-- relates each run of the process to the announcements that it was given. RegisterCenter/Reaching and
-- GateWay/Http/Reaching follow a call from the context that is made for it to the pick of a connection,
-- and GateWay/App/Lifecycle/Downloads follows a download in a process that runs.
--
-- Loops are structural recursion, but for `strings.Trim`, which has the length of the text as its
-- fuel: each round takes a byte, so it never runs out.
--
-- Third parties are parameters: gRPC and dialling, cron, versions, the protobuf codec and names, the
-- JSON encoder, the hash ring, the random generator, IP address syntax, uuid. Common/ConsistentHash
-- and Common/jsonpb are copies of other projects and count as such.
--
-- Not modelled: what logrus does with the entries of a log; the routing of `http.ServeMux`;
-- the profiling and documentation pages; the fields of log entries; the generated code but for the
-- enums, messages and getters in use; memory, goroutines and locks; the end of a request's context when
-- its client goes away; calls that block, such as the graceful stops (a step is made at once).
pub mod Common
pub mod Logger
pub mod Protos
pub mod RegisterCenter
pub mod GateWay
pub mod Tests
