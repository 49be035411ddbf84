-- ===== src/Tests/System.antt =====
-- A request that is delivered, viewed and left alone.
use mathlib.Core.List.{Memᴰ}
use eps_dapp.Base.{◌≡◌, ◌≤◌, refl, some, [], ◌∷◌, arith, Text, codes, count}
use eps_dapp.Db.{ServiceRequest, ServiceStatus}
use eps_dapp.Effects.{World, Error}
use eps_dapp.Failure.{has_request_id}
use eps_dapp.Lifecycle.{UniqueIds, Evolved, terms}
use eps_dapp.Notice.Page.{notice_page}
use eps_dapp.System.Reached.{works, shows, Runs, stays, goes_on, Runs-Evolved, settled_stays}
use eps_dapp.Worker.{run_once}
use eps_dapp.Samples.{sample_env, sample_requests, sample_world, sample_request, sample_rpc}
use eps_dapp.Tests.Notice.{sample_headers}
use eps_dapp.Tests.Services.{sample_mailer}

abbrev no_message : Error → Text
no_message e = []

one_id : (id : Text) → count (has_request_id id) (sample_request ∷ []) ≤ 1
one_id id = ground arith

sample_unique : UniqueIds sample_world.db
sample_unique = record { one_at_most = one_id }

-- The worker runs, and the notice is viewed.
abbrev worked_world : World
worked_world = (run_once sample_env sample_rpc no_message sample_world).1

abbrev seen_world : World
seen_world = (notice_page sample_env sample_mailer sample_headers (codes "t") worked_world).1

sample-Runs : Runs sample_world seen_world
sample-Runs =
    goes_on (works sample_env sample_requests sample_rpc no_message sample_world)
      (goes_on (shows sample_env sample_mailer sample_headers (codes "t") worked_world) stays)

Runs-Evolved_example : Evolved sample_world.db seen_world.db
Runs-Evolved_example = Runs-Evolved sample_unique sample-Runs

-- A request that was delivered.
abbrev settled_request : ServiceRequest
settled_request = record sample_request {
  status = ServiceStatus.confirmed;
  tx_signature = some (codes "sig");
}

abbrev settled_world : World
settled_world = record sample_world {
  db = record sample_world.db { requests = settled_request ∷ [] };
}

settled_id : (id : Text) → count (has_request_id id) (settled_request ∷ []) ≤ 1
settled_id id = ground arith

settled_unique : UniqueIds settled_world.db
settled_unique = record { one_at_most = settled_id }

abbrev visited_world : World
visited_world =
    (notice_page sample_env sample_mailer sample_headers (codes "t")
      (run_once sample_env sample_rpc no_message settled_world).1).1

settled-Runs : Runs settled_world visited_world
settled-Runs = goes_on (works sample_env sample_requests sample_rpc no_message settled_world) (
    goes_on
      (shows sample_env sample_mailer sample_headers (codes "t")
        (run_once sample_env sample_rpc no_message settled_world).1)
      stays)

settled_stays_example :
    (s : ServiceRequest) × Memᴰ s visited_world.db.requests
    × (terms s ≡ terms settled_request)
    × (s.status ≡ ServiceStatus.confirmed)
    × (s.tx_signature ≡ some (codes "sig"))
settled_stays_example =
    settled_stays settled_request (codes "sig") settled_unique settled-Runs (Memᴰ.head refl) refl
      refl
