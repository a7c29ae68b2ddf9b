-- ===== src/Lib.antt =====
-- Verification of r2_labs, the Python SDK of a two-armed robot: its RPC layer, its state streams, its
-- broadcast publisher, its arm executor, its tickets, its clients and its script for data collection.
--
-- How the parts interact. A robot server runs the loop of rpc/server.py; every thread of the SDK calls
-- it over its own REQ socket (rpc/client.py). A behaviour is a remote call that returns a ticket; the
-- SDK submits a task to the arm executor (sdk/futures.py) that makes the call and polls the ticket
-- (sdk/client.py) until it ends, times out or is cancelled, by its future or by a sweep over the
-- registry of sdk/cancellation.py at SIGINT. The server publishes its state over a stream
-- (rpc/stream_server.py, followed by rpc/stream_client.py) and its events over the broadcast publisher
-- (rpc/publisher.py). examples/scripts/collect_data.py drives recordings by a foot pedal and a page.
--
-- The files and the code.
--   Base: what the other modules share: the native numbers' tests, lists, dictionaries in insertion
--     order, texts as lists of code points with their UTF-8 encoding, Python's order of texts.
--   Futures: sdk/futures.py. Futures/State has ArmExecutor's fields, the waiting scheduler included;
--     Futures has its methods; Futures/Steps interleaves callers, the scheduler and the pools' workers,
--     each step what a thread does while it holds the condition's lock, or its test of the flag without
--     it. Futures/Exclusion, Scan and Hang hold the proofs.
--   Publisher: rpc/publisher.py. Publisher/Start has the constructor, start, stop and the presence
--     test; Publisher/Owner one pass of the owner thread's loop, with its heartbeats. Proofs are in
--     Routing, Forwarding, Presence, Heartbeats and Lifecycle.
--   Stream: rpc/stream_server.py in Stream/Server, with its interleavings in Stream/Steps, and
--     rpc/stream_client.py in Stream/Client. Proofs are in Freshness, Pruning, Departed and Staleness.
--   Cancellation: sdk/cancellation.py, with its proofs in Cancellation/Laws.
--   Tickets: sdk/client.py. Tickets/Wait has BehaviourClient.wait_for_ticket and
--     BehaviourFailedError's message, over the data of sdk/rpc_api.py; Tickets/Motion has
--     ColumnClient._submit_motion and Tickets/Submit BehaviourClient._submit_behaviour, with the
--     registry, as interleaved steps. Proofs are in Outcomes, Deadlines, Cancels, Registered and Heard.
--   Rpc: Rpc/Wire has the messages of rpc/server.py and the operations of pickle, zstd and struct that
--     both sides use, as parameters with their round trips; Rpc/Server has BaseServer (register_fn,
--     run, _ping, stop) and Rpc/Client BaseClient (__call__, ping_server and the socket's helpers).
--     Proofs are in Readiness, Delivery and Serving; Rpc/Sample is a concrete wire for the examples.
--   Sdk: the clients of sdk/client.py. Each client class has a module of its name without "Client": a
--     wrapper is the request that it makes (the remote function, the query's dataclass with the
--     keyword arguments, the deadline, the class of the response), with the query dataclasses of
--     sdk/rpc_api.py as tables of fields. Sdk/Value has what these share, with the dataclass's
--     constructor; Sdk/Call has _rpc_call and the check of the response over Rpc/Client. Sdk/Motions
--     and Sdk/Arm have what BehaviourClient's and ArmClient's methods submit; Sdk/Robot has Robot with
--     its lazy clients and the behaviour client's by thread, Sdk/Activation activate and deactivate, Sdk/Setstate the __setstate__ methods
--     and Sdk/Ports the default ports. Proofs are in Forms, Call, Unpickled, Ports, Scope, Reached,
--     Activation and Activated.
--   Collect: examples/scripts/collect_data.py. Collect/Pedal has the evdev events and PedalListener,
--     Collect/Episodes the flags of ResetCoordinator, as calls that no other thread comes between, and
--     EpisodeController, Collect/Presses the pedal's handler, Collect/Alerts the toast, the page's phase
--     and the hardware alert. Proofs are in Reconnects, Clicks, Alternation, Presses and Recovery.
--   Models: ModelsClient and ModelsNotLoadedError of sdk/client.py, with proofs in Models/Loading.
--   Version: version.py's comparison of an SDK's and a backend's version, with its proof in Compared.
--   Studio: examples/scripts/training_ui/app.py. Studio has the trainers and the address that the endpoints
--     share, with connect, disconnect and hard_reset cut at their awaits and interleaved; Studio/Export
--     has the two export endpoints. Proofs are in Paired and Exported.
-- Each component's Examples module evaluates it at concrete inputs.
--
-- What is a parameter. A socket's answers, the clock, a lock's order and a device are what a step
-- reads: arguments of the definitions, or the elements of the list of rounds that a loop runs over. A
-- loop that waits for its environment is a recursion over these rounds, so none needs fuel; a run that
-- has not ended is a result of its own. The pedal's thirty attempts and an export's sixty polls
-- are a recursion on their number.
-- Exceptions are results. Threads are steps of a relation that may follow each other in any order.
-- Times are whole milliseconds, in the RPC layer's metrics microseconds, where the code has float
-- seconds. Counters that the code never bounds are unbounded. An insertion sort stands for `sorted`.
--
-- An object that crosses the wire is known by its class and its bytes, an argument of a wrapper by what
-- the wrapper tests of it. The defaults in a wrapper's signature are its callers' to write out.
--
-- What is not modelled: log lines and profiling; the sockets' options; segment_object_from_annotations and
-- ModelServicesClient.get_address; what the two methods that start a training and
-- OnlineEpisodeForwardingClient.start do before their request; the reset thread of collect_data.py, whose
-- flags other threads change without a lock; what a wrapper picks out of its response; Robot's two helpers
-- for camera frames; the other endpoints of examples/scripts/training_ui; the widgets, plots and pages
-- (sdk/progress_widget.py, the Dash layouts); the MCP server, whose tools pass calls on; numpy and
-- image code.
mod Base
pub mod Rpc
pub mod Collect
pub mod Models
pub mod Version
pub mod Futures
pub mod Publisher
pub mod Stream
pub mod Cancellation
pub mod Tickets
pub mod Sdk
pub mod Studio
