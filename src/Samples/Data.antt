-- ===== src/Samples/Data.antt =====
-- Sample rows, an environment in which every call goes through, and a cluster.
use mathlib.Core.List.{Memᴰ}
use eps_dapp.Base.{
  ◌+◌, ◌≡◌, refl, Bool, true, none, some, [], ◌∷◌, ◌++◌, any, ◌==◌, arith, find, find-mem,
  find_meets, if◌then◌else◌, Text, codes,
}
use eps_dapp.Db.{Organization, Subscription, SubscriptionStatus, ServiceRequest, ServiceStatus, Db}
use eps_dapp.Effects.{Env, World, ok, err, external}
use eps_dapp.Solana.{Rpc, RejectsZero, Finalized}
use eps_dapp.Quota.{FindsLatest}
use eps_dapp.Worker.{FindsRequest}
use eps_dapp.Samples.Queries.{
  latest, latest-mem, latest_meets, latest_lem, latest_missing, find_missing,
}

abbrev pub sample_org : Organization
sample_org = record {
  id = codes "o1";
  clerk_org_id = codes "org_1";
  name = codes "Firm";
  owner_email = none;
}

-- A plan for nine requests a month, one of which is used.
abbrev pub sample_subscription : Subscription
sample_subscription = record {
  id = codes "s1";
  org_id = codes "o1";
  tier_id = codes "tier2";
  status = SubscriptionStatus.active;
  period_start = 0;
  period_end = 2678400000;
  usage_count = 1;
}

-- A request as intake stages it.
abbrev pub sample_request : ServiceRequest
sample_request = record {
  id = codes "r1";
  user_id = none;
  org_id = some (codes "o1");
  case_caption = codes "A v. B";
  plaintiff_name = codes "A";
  defendant_name = codes "B";
  recipient_wallet = codes "wallet";
  recipient_ens_name = none;
  court_order_flag = true;
  attested_at = 0;
  notice_token = some (codes "cd");
  document_sha256 = some (codes "ab");
  status = ServiceStatus.staged;
  tx_signature = none;
  slot = none;
  block_time = none;
  failure_reason = none;
  created_at = 5;
  ens_display_name = none;
  agent_ens_name = none;
  hcs_topic_id = none;
  hcs_sequence_number = none;
  hcs_consensus_time = none;
  hcs_tx_id = none;
  hcs_mirror_url = none;
  hts_token_id = none;
  hts_serial_number = none;
  hts_tx_id = none;
  hts_mirror_url = none;
  hts_nft_serial = none;
  hts_transfer_tx = none;
}

-- The same request after a crash that followed the broadcast.
abbrev pub resumed_request : ServiceRequest
resumed_request = record sample_request {
  status = ServiceStatus.in_progress;
  tx_signature = some (codes "sig");
}

abbrev pub sample_db : Db
sample_db = record {
  organizations = sample_org ∷ [];
  subscriptions = sample_subscription ∷ [];
  webhook_events = [];
  requests = sample_request ∷ [];
  accesses = [];
  addenda = [];
  certificates = [];
  audit_log = [];
}

abbrev pub sample_world : World
sample_world = record {
  db = sample_db;
  tick = 0;
  sent = [];
  tasks = [];
  objects = [];
  outbox = [];
  buckets = [];
  lru_buckets = [];
}

abbrev pub sample_env : Env
sample_env = record {
  now = λ t. 1000 + t;
  fresh_id = λ t. codes "id" ++ t ∷ [];
  random_bytes = λ t n. 7 ∷ [];
  answers = λ t. ok tt;
  first_subscription = latest;
  first_request = find;
}

-- No statement goes through: the database is unreachable.
abbrev pub offline_env : Env
offline_env = record sample_env { answers = λ t. err (external (codes "unreachable")) }

pub sample_latest : FindsLatest sample_env
sample_latest = record {
  found_mem = latest-mem;
  found_meets = latest_meets;
  found_latest = latest_lem;
  missing = latest_missing;
}

pub sample_requests : FindsRequest sample_env
sample_requests = record {
  request_mem = find-mem;
  request_meets = find_meets;
  request_missing = find_missing;
}

-- The transaction that carries the memo of the sample request.
abbrev pub sample_transaction : Finalized
sample_transaction = record {
  slot = 7;
  block_time = some 1700000000;
  message = some (record {
    account_keys = none;
    static_account_keys = some (codes "memo" ∷ []);
    instructions = none;
    compiled_instructions =
        some (record { program_id_index = 0; data_units = codes "ab|cd|r1" } ∷ []);
  });
}

abbrev pub has_zero : Text → Bool
has_zero = any (λ c. c == b'0')

abbrev pub sample_rpc : Rpc
sample_rpc = record {
  rpc_url = some (codes "https://api.devnet.solana.com");
  signer_keypair = some (codes "secret");
  decode_keypair = λ secret. ok secret;
  parse_key = λ addr. if has_zero addr then none else some addr;
  is_on_curve = λ key. true;
  memo_program_id = codes "memo";
  decode_base58 = λ text. text;
  decode_utf8 = λ bytes. bytes;
  rent_minimum = λ t. ok 890880;
  send_transaction = λ t from to lamports memo. ok (codes "sig");
  confirm_transaction = λ t signature. ok tt;
  get_transaction = λ t signature. ok (some sample_transaction);
}

-- The same with an endpoint of the main network.
abbrev pub mainnet_rpc : Rpc
mainnet_rpc = record sample_rpc { rpc_url = some (codes "https://api.Mainnet-beta.solana.com") }

has_zero-mem : (addr : Text) → Memᴰ b'0' addr → has_zero addr ≡ true
has_zero-mem [] m = elim m [ ]
has_zero-mem (c ∷ addr) (Memᴰ.head e) = ground arith
has_zero-mem (c ∷ addr) (Memᴰ.tail m) = ground (arith, has_zero-mem addr m)

pub sample_rejects : RejectsZero sample_rpc
sample_rejects = record { zero_refused = λ addr m. rw (has_zero-mem addr m) refl }
