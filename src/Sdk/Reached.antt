-- ===== src/Sdk/Reached.antt =====
-- A server's client is made once, and kept.
use r2_labs.Base.{Option, some}
use r2_labs.Rpc.Wire.{Wire}
use r2_labs.Rpc.Client.{BaseClient}
use r2_labs.Sdk.Robot.{main, query, training, Robot, Holder, server, thread}

abbrev held : Holder → Robot → Option BaseClient
held (server main) r = some r.base_client
held (server query) r = r.query_client
held (server training) r = r.training_client
held (thread n) r = r.thread_clients n
