-- ===== src/Bootstrap/Examples.antt =====
-- The theorem about the loop of internal/core/builder.go at two recovered sessions.
use mathlib.Core.List.{Memᴰ}
use foreman.Prelude.{◌≡◌, refl, some, none, [], ◌∷◌, true, inl, inr, ok}
use foreman.Prelude.Dict.{lookup}
use foreman.Schemas.{running, approval, failed}
use foreman.StateStore
use foreman.ControlPlane.{restore}
use foreman.Coordinator.{Config, Coordinator}
use foreman.Bootstrap.{take_up}
use foreman.Bootstrap.Recovered.{status_of, take_up_dead}

abbrev waiting : StateStore.Session
waiting = record {
  id = "ses_1";
  task_id = "1";
  user_id = "";
  plugin_id = "";
  status = approval;
  description = "fix";
  agent = "";
  checkpoint_ref = none;
  created_at = 1;
  updated_at = 2;
}

abbrev going_on : StateStore.Session
going_on = record waiting { id = "ses_2"; status = running }

abbrev config : Config
config = record {
  adapters = [];
  adapter_list = [];
  agent_configs = [];
  policies = [];
  max_concurrent = 1;
  heartbeat_interval = 0;
  heartbeat_timeout = 30;
  max_retries = 3;
  default_timeout = 0;
  resolve_tools = λ id. ok tt;
}

abbrev state : Coordinator
state = record {
  cp = record {
    bus = record { published = []; outcomes = [] };
    store = none;
    sessions = ("ses_1", restore waiting) ∷ ("ses_2", restore going_on) ∷ [];
  };
  accepting = true;
  active = [];
  attempts = [];
  heartbeats = [];
  sandboxes = [];
  spawned = [];
}

in_memory : status_of "ses_1" state ≡ some approval
unfolding lookup
in_memory = refl

take_up_dead_example :
    status_of "ses_1" (take_up config 90 5 (going_on ∷ waiting ∷ []) state) ≡ some failed
take_up_dead_example =
    take_up_dead config 90 5 (going_on ∷ waiting ∷ []) waiting state ((refl, tt), (tt, tt))
      (Memᴰ.tail (Memᴰ.head refl)) in_memory (inr (inl refl))
