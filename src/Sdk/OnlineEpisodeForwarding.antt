-- ===== src/Sdk/OnlineEpisodeForwarding.antt =====
-- sdk/client.py: the wrappers of `OnlineEpisodeForwardingClient`.
use Prim.Native.String.{String}
use r2_labs.Base.{List, [], ◌∷◌, Option, none, some, ℕ}
use r2_labs.Sdk.Value.{DataClass, Request, Value, null, optional, required, str}

abbrev pub stop : Request
stop = record {
  fn_name = "online_episode_forwarding.stop";
  query = none;
  deadline = none;
  response = some "OnlineEpisodeForwardingStateResponse";
}

abbrev pub get_state : Request
get_state = record {
  fn_name = "online_episode_forwarding.get_state";
  query = none;
  deadline = none;
  response = some "OnlineEpisodeForwardingStateResponse";
}

abbrev pub online_episode_forwarding_start_query : DataClass
online_episode_forwarding_start_query = record {
  name = "OnlineEpisodeForwardingStartQuery";
  fields =
      required "model_name"
      ∷ optional "base_model_id" (str "")
      ∷ optional "server_address" null
      ∷ [];
}

-- The request of `start`, for the base model that it has settled.
abbrev pub start : Value → Value → Value → Request
start model_name base_model_id server_address = record {
  fn_name = "online_episode_forwarding.start";
  query = some (
    online_episode_forwarding_start_query,
    ("model_name", model_name)
        ∷ ("base_model_id", base_model_id)
        ∷ ("server_address", server_address)
        ∷ [],
  );
  deadline = none;
  response = some "OnlineEpisodeForwardingStateResponse";
}

-- Every request of these wrappers, for any arguments.
abbrev pub requests : (String → Value) → ℕ → Option ℕ → List Request
requests v n t =
    stop ∷ get_state ∷ start (v "model_name") (v "base_model_id") (v "server_address") ∷ []
