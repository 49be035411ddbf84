-- ===== src/Tests/Demo.antt =====
-- A request that the demonstration mode fulfills.
use eps_dapp.Base.{◌≤◌, some, [], ◌∷◌, arith, Text, codes, count}
use eps_dapp.Db.{ServiceRequest}
use eps_dapp.Effects.{World}
use eps_dapp.Failure.{has_request_id}
use eps_dapp.Http.{text, fields}
use eps_dapp.Demo.Fulfill.{post_fulfill}
use eps_dapp.Lifecycle.{UniqueIds, Follows}
use eps_dapp.Demo.{fulfill-Follows}
use eps_dapp.Samples.{sample_env, sample_world, sample_request}
use eps_dapp.Tests.Services.{sample_session, sample_hedera}

abbrev own_request : ServiceRequest
own_request = record sample_request { user_id = some (codes "user_1") }

abbrev own_world : World
own_world = record sample_world { db = record sample_world.db { requests = own_request ∷ [] } }

one_id : (id : Text) → count (has_request_id id) (own_request ∷ []) ≤ 1
one_id id = ground arith

own_unique : UniqueIds own_world.db
own_unique = record { one_at_most = one_id }

fulfill-Follows_example :
    Follows
      (own_request ∷ [])
      (post_fulfill sample_env sample_hedera sample_session
        (fields (text (codes "r1")))
        own_world).1.db.requests
fulfill-Follows_example =
    fulfill-Follows sample_env sample_hedera sample_session (fields (text (codes "r1"))) own_world
      own_unique
