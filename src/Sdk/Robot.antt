-- ===== src/Sdk/Robot.antt =====
-- sdk/client.py: `Robot`, whose clients of the servers are made on first access. A client is made by a
-- ping of its server; `peers` is what zmq makes of a message to an address.
use Prim.Native.String.{String}
use r2_labs.Base.{ℕ, Bool, List, [], ◌∷◌, Option, none, some}
use r2_labs.Base.Text.{Text}
use r2_labs.Futures.State.{ArmSelection, left, right, both, update}
use r2_labs.Rpc.Wire.{Bytes, Wire}
use r2_labs.Rpc.Client.{ℤ, BaseClient, Exchange, Called, init, ping_server}
use r2_labs.Version.{version_mismatch_message}
use r2_labs.Cancellation.{Handlers, install_handlers}

-- The main server, the query server and the training server.
pub data Server : Type 0 where
  main query training : Server

pub record Endpoint : Type 0 where
  pub server_address : Text
  pub timeout : ℤ
  pub use_compression : Bool
  pub service_name : String

abbrev pub Peers : Type 0
Peers = Endpoint → Bytes → Exchange

-- The arguments of `Robot.__init__`.
pub record Config : Type 0 where
  pub server_address : Text
  pub query_server_address : Text
  pub training_server_address : Text
  pub use_compression : Bool
  pub timeout : ℤ
  pub query_timeout : Option ℤ
  pub primary_arm : ArmSelection

-- The clients that `cached_property` keeps are none until they are made; `thread_clients` are those
-- that the behaviour client's threads keep, by the thread.
pub record Robot : Type 0 where
  pub config : Config
  pub base_client : BaseClient
  pub query_client : Option BaseClient
  pub training_client : Option BaseClient
  pub thread_clients : ℕ → Option BaseClient

unfoldable pub given_or : Option ℤ → ℤ → ℤ
given_or none timeout = timeout
given_or (some t) timeout = t

-- What `__init__`, `_query_client` and `_training_client` give `BaseClient`.
unfoldable pub endpoint : Config → Server → Endpoint
unfolding given_or
endpoint c main = record {
  server_address = c.server_address;
  timeout = c.timeout;
  use_compression = c.use_compression;
  service_name = "rpc server";
}
endpoint c query = record {
  server_address = c.query_server_address;
  timeout = given_or c.query_timeout c.timeout;
  use_compression = c.use_compression;
  service_name = "query server";
}
endpoint c training = record {
  server_address = c.training_server_address;
  timeout = c.timeout;
  use_compression = c.use_compression;
  service_name = "training server";
}

-- The new client of each of the behaviour client's threads.
unfoldable pub make_behaviour_client : Config → Endpoint
make_behaviour_client c = record {
  server_address = c.server_address;
  timeout = c.timeout;
  use_compression = c.use_compression;
  service_name = "main server";
}

-- What the constructor of a client comes to.
pub data Connected : Type 0 where
  connected : BaseClient → Connected
  refused : Called → Connected

unfoldable pub pinged : BaseClient × Option Called → Connected
pinged (c, none) = connected c
pinged (c, some x) = refused x

unfoldable pub connect : Wire → Peers → Endpoint → Connected
unfolding pinged
connect w peers e = pinged (ping_server w (peers e) (init e.timeout e.use_compression))

-- What `__init__` comes to: the robot, the warning and the signal handlers, or the ping's exception.
pub data Constructed : Type 0 where
  robot : Robot → Option Text → Handlers → Constructed
  unreachable : Called → Constructed

unfoldable pub after_connect :
    (Text → Bool) → Option Text → Bool → Handlers → Config → Connected → Constructed
after_connect is_digit own on_main h config (refused x) = unreachable x
after_connect is_digit own on_main h config (connected c) =
    robot
      (record {
        config = config;
        base_client = c;
        query_client = none;
        training_client = none;
        thread_clients = λ _. none;
      })
      (version_mismatch_message is_digit own c.server_version) (install_handlers on_main h)

unfoldable pub construct_robot :
    (Text → Bool) → Option Text → Bool → Handlers → Wire → Peers → Config → Constructed
unfolding after_connect
construct_robot is_digit own on_main h w peers config =
    after_connect is_digit own on_main h config (connect w peers (endpoint config main))

-- The sub-clients by the name of the property; `queries` is `query`.
pub data SubClient : Type 0 where
  exec_mode raw_robot column queries recording visual_trajectory_recording visual_pose_capture
        episode_observer online_episode_forwarding collect_data dagger eval hardware_health zeroing
        object_library trajectory_library visual_pose_library visual_trajectory_library apriltag
        model_services models behaviour trainer progress_trainer left_arm right_arm :
      SubClient

-- Who keeps a client: the robot, one for each server, or a thread of the behaviour client.
pub data Holder : Type 0 where
  server : Server → Holder
  thread : ℕ → Holder

-- Whose client the sub-client gets. The behaviour client gets none, and makes one for each thread that
-- calls it; an arm client gets the behaviour client and, by `query`, the query server's client.
unfoldable pub served_by : SubClient → Option Holder
served_by queries = some (server query)
served_by left_arm = some (server query)
served_by right_arm = some (server query)
served_by model_services = some (server training)
served_by trainer = some (server training)
served_by progress_trainer = some (server training)
served_by behaviour = none
served_by _ = some (server main)

-- The access of a property, or a call of the behaviour client in a thread.
pub data Use : Type 0 where
  opens : SubClient → Use
  calls : ℕ → Use

unfoldable pub holder_of : Use → Option Holder
unfolding served_by
holder_of (opens sub) = served_by sub
holder_of (calls n) = some (thread n)

unfoldable pub keep_query : Connected → Robot → Robot × Connected
keep_query (refused x) r = (r, refused x)
keep_query (connected c) r = (record r { query_client = some c }, connected c)

unfoldable pub keep_training : Connected → Robot → Robot × Connected
keep_training (refused x) r = (r, refused x)
keep_training (connected c) r = (record r { training_client = some c }, connected c)

unfoldable pub query_client_of : Wire → Peers → Option BaseClient → Robot → Robot × Connected
unfolding keep_query
query_client_of w peers (some c) r = (r, connected c)
query_client_of w peers none r = keep_query (connect w peers (endpoint r.config query)) r

unfoldable pub training_client_of : Wire → Peers → Option BaseClient → Robot → Robot × Connected
unfolding keep_training
training_client_of w peers (some c) r = (r, connected c)
training_client_of w peers none r = keep_training (connect w peers (endpoint r.config training)) r

unfoldable pub keep_thread : ℕ → Connected → Robot → Robot × Connected
keep_thread n (refused x) r = (r, refused x)
keep_thread n (connected c) r =
    (record r { thread_clients = update r.thread_clients n (some c) }, connected c)

-- `BehaviourClient._get_rpc_client`
unfoldable pub get_rpc_client : Wire → Peers → ℕ → Option BaseClient → Robot → Robot × Connected
unfolding keep_thread
get_rpc_client w peers n (some c) r = (r, connected c)
get_rpc_client w peers n none r = keep_thread n (connect w peers (make_behaviour_client r.config)) r

unfoldable pub client_of : Wire → Peers → Holder → Robot → Robot × Connected
unfolding query_client_of training_client_of get_rpc_client
client_of w peers (server main) r = (r, connected r.base_client)
client_of w peers (server query) r = query_client_of w peers r.query_client r
client_of w peers (server training) r = training_client_of w peers r.training_client r
client_of w peers (thread n) r = get_rpc_client w peers n (r.thread_clients n) r

-- A use that asks nobody for a client comes to none.
unfoldable pub asked : Wire → Peers → Option Holder → Robot → Robot × Option Connected
unfolding client_of
asked w peers none r = (r, none)
asked w peers (some h) r = let (r', x) = client_of w peers h r in (r', some x)

unfoldable pub access : Wire → Peers → Use → Robot → Robot × Option Connected
unfolding holder_of asked
access w peers u r = asked w peers (holder_of u) r

unfoldable pub accesses : Wire → List (Peers × Use) → Robot → Robot
unfolding access
accesses w [] r = r
accesses w ((peers, u) ∷ rest) r = accesses w rest (access w peers u r).0

-- The side of the `arm` property's client; none is the ValueError.
unfoldable pub arm_side : ArmSelection → Option ArmSelection
arm_side left = some left
arm_side right = some right
arm_side both = none

unfoldable pub arm : Robot → Option ArmSelection
unfolding arm_side
arm r = arm_side r.config.primary_arm
