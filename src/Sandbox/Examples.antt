-- ===== src/Sandbox/Examples.antt =====
-- The theorems about internal/sandbox/docker.go with a daemon that is a list of containers' names.
use foreman.Prelude.{
  ℕ, String, ◌≡◌, refl, inl, inr, Bool, false, Bool-cases, some, List, [], ◌∷◌, ◌++◌, Result, ok,
  err, message, any, All, str_eq, eq_iff, arith, if◌then◌else◌,
}
use foreman.Prelude.Text.{split_on, fields}
use foreman.Prelude.Dict.{lookup, insert, delete}
use foreman.Sandbox.{DockerSandbox, SandboxSpec, Units, provision, destroy}
use foreman.Sandbox.Client.{Docker, copied, return}
use foreman.Sandbox.Containers.{IsDocker, Reliable}
use foreman.Sandbox.Leaks.{Leaves, provision-Leaves}
use foreman.Sandbox.Removal.{Destroys, destroy-Destroys}
use foreman.Sandbox.Runs.{Run, Step, Run-IsTracking}
use foreman.Sandbox.Tracking.{IsTracking}
use foreman.Sandbox.Gateway.{default_gateway, tail}
use foreman.Sandbox.Gateway.Octets.{Finds, default_gateway-Finds}
use foreman.Sandbox.Hosts.{Runtime, resolve_host}
use foreman.Sandbox.Frames.{read_header}
use foreman.Sandbox.Frames.Stream.{subscribe_events, encode_all}
use foreman.Sandbox.Frames.RoundTrip.{all_events, subscribe_events-encode_all}
use foreman.Sandbox.Frames.Payloads.{IsEvent, subscribe_events-IsEvent}

abbrev has : List String → String → Bool
has names other = any (λ name. str_eq name other) names

abbrev without : String → List String → List String
without id [] = []
without id (name ∷ names) =
    let rest = without id names in if str_eq id name then rest else name ∷ rest

abbrev create : String → List String → Result String × List String
create name names =
    if has names name then (err (message "Conflict"), names) else (ok name, name ∷ names)

abbrev daemon : Docker (List String)
daemon = record {
  image_inspect = λ image. return tt;
  image_pull = λ image. return tt;
  container_create = λ cfg name. create name;
  container_start = λ id. return tt;
  container_remove = λ id names. (ok tt, without id names);
  container_inspect = λ id. return (some "running");
  exec_create = λ id cmd. return "exec";
  exec_start = λ id. return tt;
  exec_attach = λ id. return (copied "out" "");
  exec_inspect = λ id. return 0;
  copy_to_container = λ id dir archive. return tt;
  copy_from_container = λ id path. return [];
}

without-has :
    (id other : String) (names : List String)
    → has (without id names) other ≡ (if str_eq id other then false else has names other)
without-has id other [] = ground arith
without-has id other (name ∷ names) =
    ground (arith, eq_iff id name, eq_iff id other, eq_iff name other, without-has id other names)

daemon-IsDocker : IsDocker has daemon
daemon-IsDocker = record {
  keeps_inspect_image = λ image d other. refl;
  keeps_pull = λ image d other. refl;
  keeps_start = λ id d other. refl;
  keeps_inspect = λ id d other. refl;
  keeps_exec_create = λ id cmd d other. refl;
  keeps_exec_start = λ id d other. refl;
  keeps_exec_attach = λ id d other. refl;
  keeps_exec_inspect = λ id d other. refl;
  creates = λ cfg name d. elim (Bool-cases (has d name)) [
    | inl e ↦ rw e (λ other. refl)
    | inr e ↦ rw e (record { fresh = e; others = λ other. ground arith })
  ];
  removes = λ id d other. without-has id other d;
}

daemon-Reliable : Reliable has daemon
daemon-Reliable id d h = refl

abbrev units : Units
units = record { ram_in_bytes = λ t. ok 0; scan_nano_cpus = λ t. ok 0 }

abbrev spec : SandboxSpec
spec = record {
  image = "agent";
  memory = "";
  cpu = "";
  env = [];
  work_dir = "/workspace";
  network = "";
  extra_hosts = [];
}

abbrev empty : DockerSandbox
empty = record { image = ""; default_network = ""; containers = [] }

abbrev one : DockerSandbox
one = record empty {
  containers = ("foreman-sbox-7", record { id = "foreman-sbox-7"; created_at = 7 }) ∷ [];
}

provision-Leaves_example :
    Leaves daemon has daemon-IsDocker daemon-Reliable 7 "7"
      (empty, "other" ∷ [])
      (provision daemon units 7 "7" spec (empty, "other" ∷ []))
provision-Leaves_example =
    provision-Leaves daemon has daemon-IsDocker daemon-Reliable units 7 "7" spec empty
      ("other" ∷ [])

provision_test :
    provision daemon units 7 "7" spec (empty, "other" ∷ [])
    ≡ (ok "foreman-sbox-7", (one, "foreman-sbox-7" ∷ "other" ∷ []))
unfolding provision insert
provision_test = refl

destroy_test :
    destroy daemon "foreman-sbox-7" (one, "foreman-sbox-7" ∷ "other" ∷ [])
    ≡ (ok tt, (empty, "other" ∷ []))
unfolding destroy lookup delete
destroy_test = refl

destroy-Destroys_example :
    Destroys daemon has daemon-IsDocker "foreman-sbox-7"
      (one, "foreman-sbox-7" ∷ [])
      (destroy daemon "foreman-sbox-7" (one, "foreman-sbox-7" ∷ []))
destroy-Destroys_example =
    destroy-Destroys daemon has daemon-IsDocker "foreman-sbox-7" one ("foreman-sbox-7" ∷ [])

tracks_nothing : IsTracking has (has ("other" ∷ [])) empty ("other" ∷ [])
unfolding lookup
tracks_nothing = record {
  exists = λ n cs h. ground arith;
  ours = λ n cs h. ground arith;
  apart = λ n m a b h k e. ground arith;
  kept = λ id h. h;
  owned = λ id h k. ground arith;
}

Run-IsTracking_example : IsTracking has (has ("other" ∷ [])) one ("foreman-sbox-7" ∷ "other" ∷ [])
unfolding lookup
Run-IsTracking_example =
    Run-IsTracking daemon has daemon-IsDocker daemon-Reliable (has ("other" ∷ []))
      (Run.step Run.start (Step.provisioned units 7 "7" spec refl provision_test)) tracks_nothing

abbrev routes : String
routes = "Iface\tDestination\tGateway\neth0\t0000FEA9\t00000000\neth0\t00000000\t0101A8C0\n"

default_gateway_test : default_gateway (ok routes) ≡ ok (record { a = 192; b = 168; c = 1; d = 1 })
unfolding default_gateway split_on fields
default_gateway_test = refl

default_gateway-Finds_example : Finds (tail (split_on 10 routes)) (default_gateway (ok routes))
default_gateway-Finds_example = default_gateway-Finds routes

abbrev runtime : Runtime
runtime = record {
  inspect = λ name.
      if str_eq name "c1"
      then ok (some (("bridge", "10.0.0.2") ∷ []))
      else err (message "No such container");
  list = ok (record { id = "c1"; names = "/nats" ∷ []; labels = [] } ∷ []);
  route_table = ok routes;
  show_ip = λ ip. "192.168.1.1";
  lookup_host = λ name. ok ("93.184.216.34" ∷ []);
}

resolve_container_test : resolve_host runtime "nats" ≡ ok "10.0.0.2"
unfolding resolve_host lookup
resolve_container_test = refl

-- The resolver knows the host, and is not asked.
resolve_internet_test : resolve_host runtime "example.com" ≡ ok "192.168.1.1"
unfolding resolve_host lookup split_on fields
resolve_internet_test = refl

abbrev frames : List (ℕ × List ℕ)
frames = (1, 104 ∷ 105 ∷ 13 ∷ 10 ∷ 10 ∷ 33 ∷ []) ∷ (1, []) ∷ (2, 33 ∷ []) ∷ []

subscribe_events_test :
    subscribe_events (encode_all frames ++ 1 ∷ 0 ∷ [])
    ≡ record { type = "stdout"; payload = 104 ∷ 105 ∷ [] }
      ∷ record { type = "stdout"; payload = 33 ∷ [] }
      ∷ record { type = "stderr"; payload = 33 ∷ [] }
      ∷ []
unfolding subscribe_events encode_all
subscribe_events_test = refl

subscribe_events-encode_all_example :
    subscribe_events (encode_all frames ++ 1 ∷ 0 ∷ []) ≡ all_events frames
unfolding read_header
subscribe_events-encode_all_example =
    subscribe_events-encode_all frames (1 ∷ 0 ∷ []) (omega arith, (omega arith, (omega arith, tt)))
      refl

subscribe_events-IsEvent_example : All IsEvent (subscribe_events (1 ∷ 0 ∷ []))
subscribe_events-IsEvent_example = subscribe_events-IsEvent (1 ∷ 0 ∷ [])
