-- ===== src/Rpc/Examples.antt =====
-- A client and a server that talk over a concrete wire.
use r2_labs.Base.{ℕ, suc, ◌≡◌, refl, true, false, List, [], ◌∷◌, none, some}
use r2_labs.Base.Text.{text_eq, text_beq, codes}
use r2_labs.Base.Dict.{lookup, insert}
use r2_labs.Rpc.Server.{
  Handler, BaseServer, result, exception, Turn, register_fn, init, dispatch, dispatch_to, ping,
  decompress_args, some_of, run,
}
use r2_labs.Rpc.Client.{
  init as new_client, BaseClient, ℤ, Exchange, ZmqError, call, message, request, payload,
  ping_server,
}
use r2_labs.Rpc.Readiness.{IsReady, call-IsReady}
use r2_labs.Rpc.Delivery.{delivered, seen, serve_message, call-serve}
use r2_labs.Rpc.Serving.{IsRequest, Answers, run-Answers, ping_server-version}
use r2_labs.Rpc.Sample.{wire}

-- A counter, which refuses an argument.
abbrev count : Handler ℕ
count none h = (suc h, result (9 ∷ h ∷ []))
count (some b) h = (h, exception (codes "no"))

abbrev server : BaseServer ℕ
server = register_fn count (codes "count") (init wire (some (codes "1.2")) 5)

abbrev client : BaseClient
client = new_client (ℤ.pos 5000) true

abbrev turn : Turn
turn = record {
  stop_before = false;
  backlogged = true;
  stop_idle = false;
  message = [];
  elapsed = 10;
  busy = 12;
}

fresh-IsReady : IsReady client
unfolding new_client
fresh-IsReady = tt

call-IsReady_example :
    IsReady
      (call wire
        (codes "count")
        none
        (some (ℤ.pos 10))
        (λ m. Exchange.recv_failed ZmqError.again)
        client).0
call-IsReady_example =
    call-IsReady wire (codes "count") none (some (ℤ.pos 10))
      (λ m. Exchange.recv_failed ZmqError.again) client fresh-IsReady

abbrev served_once : BaseServer ℕ
served_once =
    (serve_message wire turn server (message wire client.use_compression (codes "count") none)).0

call-serve_example :
    ((call wire
        (codes "count")
        none
        none
        (λ m. delivered (serve_message wire turn server m).1)
        client).1
      ≡ seen wire (dispatch wire (codes "count") none server).1)
    × (served_once.handlers ≡ (dispatch wire (codes "count") none server).0)
call-serve_example = call-serve wire turn server (codes "count") none none client fresh-IsReady

counted : (dispatch wire (codes "count") none server).1 ≡ result (9 ∷ 5 ∷ [])
unfolding dispatch dispatch_to register_fn init lookup insert text_beq
counted = refl

unregistered : (dispatch wire (codes "x") none server).1 ≡ exception (codes "'x'")
unfolding dispatch dispatch_to register_fn init lookup insert text_beq
unregistered = refl

abbrev requests : List Turn
requests =
    record turn { message = message wire true (codes "count") none }
    ∷ record turn { message = message wire true (codes "count") (some (3 ∷ [])) }
    ∷ []

requests-IsRequest :
    IsRequest wire (record turn { message = message wire true (codes "count") none })
    × IsRequest wire (record turn { message = message wire true (codes "count") (some (3 ∷ [])) })
unfolding message request payload decompress_args some_of
requests-IsRequest = (
  record {
    request = request wire true (codes "count") none;
    payload = none;
    is_args = refl;
    decompressed = refl;
    no_stop = refl;
    no_stop_idle = refl;
  },
  record {
    request = request wire true (codes "count") (some (3 ∷ []));
    payload = some (3 ∷ []);
    is_args = refl;
    decompressed = refl;
    no_stop = refl;
    no_stop_idle = refl;
  },
)

server_runs : server.stop_requested ≡ false
unfolding register_fn init
server_runs = refl

server_pings : lookup (codes "ping") server.fn_registry ≡ some (ping wire (some (codes "1.2")))
unfolding register_fn init lookup insert text_beq
server_pings = refl

run-Answers_example : Answers wire requests server (run wire requests server)
run-Answers_example =
    run-Answers wire requests server server_runs (requests-IsRequest.0, (requests-IsRequest.1, tt))

ping_server-version_example :
    ((ping_server wire
        (λ m. delivered (serve_message wire turn server m).1)
        client).0.server_version
      ≡ some (codes "1.2"))
    × ((ping_server wire (λ m. delivered (serve_message wire turn server m).1) client).1 ≡ none)
ping_server-version_example =
    ping_server-version wire (some (codes "1.2")) turn server client fresh-IsReady server_pings
