-- ===== src/Hedera/Routes.antt =====
-- app/api/hedera/status/route.ts and app/api/hedera/run-proof/route.ts: `GET` and `POST`.
use Prim.Native.String.{String}
use eps_dapp.Base.{
  ℕ, zero, suc, ◌-◌, Bool, Option, none, some, or_else, List, [], ◌∷◌, ◌++◌, leb, length, drop,
  is_empty, if◌then◌else◌, Text, codes, text_eq, split_at, join_with,
}
use eps_dapp.Calendar.{to_iso_string}
use eps_dapp.Json.{json_field, json_object}
use eps_dapp.Variables.{text_variable}
use eps_dapp.Effects.{
  Action, Env, Result, ok, err, crashed, Error, ◌>>=◌, ◌>>◌, pure, call, catch, hcs_message,
}
use eps_dapp.Hedera.Sdk.{Hedera, lift, send_out, on_mainnet, network_name}
use eps_dapp.Hedera.Transfer.{ProofNftTransferResult, mint_and_transfer_proof_nft}

-- `"*".repeat(n)`.
abbrev pub stars : ℕ → Text
stars zero = []
stars (suc n) = b'*' ∷ stars n

abbrev pub masked_part : Text → Text
masked_part last =
    if leb (length last) 2
    then codes "**"
    else stars (length last - 2) ++ drop (length last - 2) last

-- The last part is masked.
abbrev pub mask_last_part : List Text → List Text
mask_last_part [] = []
mask_last_part (last ∷ []) = masked_part last ∷ []
mask_last_part (part ∷ next ∷ parts) = part ∷ mask_last_part (next ∷ parts)

-- `maskOperatorId(id)`.
unfoldable pub mask_operator_id : Text → Text
unfolding split_at join_with
mask_operator_id id = join_with b'.' (mask_last_part (split_at b'.' id))

-- `!value && name`.
abbrev pub missing_name : Hedera → String → List Text
missing_name h name = if is_empty (text_variable h.variables name) then codes name ∷ [] else []

abbrev pub missing_names : Hedera → List Text
missing_names h =
    missing_name h "HEDERA_OPERATOR_ID"
    ++ missing_name h "HEDERA_OPERATOR_KEY"
    ++ missing_name h "HEDERA_HCS_TOPIC_ID"

pub data StatusResponse : Type 0 where
  disconnected : List Text → Bool → StatusResponse
  connected : Text → Text → Text → Bool → ℕ → StatusResponse

module _ (env : Env) (h : Hedera) where
  -- `GET`; whether the agent kit is there is the answer of a library.
  unfoldable pub get_hedera_status : (ℕ → Result Bool) → Action StatusResponse
  unfolding mask_operator_id
  get_hedera_status agent_kit = do
    available ← call agent_kit
    elim (missing_names h) [
      | [] ↦ λ w. (
        ok (
            connected (network_name h) (text_variable h.variables "HEDERA_HCS_TOPIC_ID")
              (mask_operator_id (text_variable h.variables "HEDERA_OPERATOR_ID")) available
              (env.now w.tick)),
        w,
      )
      | name ∷ names ↦ pure (disconnected (name ∷ names) available)
    ]

pub data ProofResponse : Type 0 where
  refused : ProofResponse
  not_configured : List Text → ProofResponse
  submit_failed : Error → ProofResponse
  proof : Text → ℕ → Option ProofNftTransferResult → Option Error → ℕ → ProofResponse

abbrev pub bounty_token : Text
bounty_token = codes "eps-bounty-2026"

abbrev pub proof_message : ℕ → Text
proof_message now = json_object (
    json_field "app" (codes "EPS")
    ∷ json_field "event" (codes "bounty-proof")
    ∷ json_field "ens" (codes "youhavebeenserved.eth")
    ∷ json_field "timestamp" (to_iso_string now)
    ∷ [])

module _ (env : Env) (h : Hedera) where
  -- The transaction id and the sequence number of a message.
  unfoldable pub submit_proof : Text → Text → Action (Text × ℕ)
  submit_proof topic message = do
    parsed ← lift (h.parse_topic topic)
    tx ←
        send_out (hcs_message parsed message)
          (λ t. h.submit_message t (on_mainnet h) parsed message)
    receipt ← call (λ t. h.message_receipt t tx)
    pure (tx, or_else receipt.topic_sequence_number 0)

  -- The attempt to mint: the result, or the error.
  abbrev pub attempt_nft : Text → Text → ℕ → Action (Option ProofNftTransferResult × Option Error)
  attempt_nft case topic number =
      catch
        (mint_and_transfer_proof_nft h (record {
          case_id = case;
          hcs_topic_id = some topic;
          hcs_sequence_number = some number;
        })
          >>= λ nft. pure (nft, none))
        (λ e. pure (none, some e))

  unfoldable pub prove_after : Text → ℕ → Text × ℕ → Action ProofResponse
  prove_after topic now (tx, number) = attempt_nft (codes "bounty-proof") topic number >>= λ nft.
      pure (proof tx number nft.0 nft.1 now)

  -- The submission, and then the attempt to mint.
  unfoldable pub submit_and_prove : Text → ℕ → Action ProofResponse
  submit_and_prove topic now w = elim (submit_proof topic (proof_message now) w).0 [
    | ok sent ↦ prove_after topic now sent (submit_proof topic (proof_message now) w).1
    | err e ↦ (ok (submit_failed e), (submit_proof topic (proof_message now) w).1)
    | crashed ↦ (crashed, (submit_proof topic (proof_message now) w).1)
  ]

  abbrev pub set_operator : Action (Unit {0})
  set_operator =
      lift (h.parse_key (text_variable h.variables "HEDERA_OPERATOR_KEY"))
      >> (lift (h.parse_account (text_variable h.variables "HEDERA_OPERATOR_ID")) >> pure tt)

  -- `POST`, with the query's token.
  unfoldable pub post_run_proof : Option Text → Action ProofResponse
  unfolding text_eq
  post_run_proof token w =
      if text_eq (or_else token []) bounty_token
      then elim (missing_names h) [
        | [] ↦
            (set_operator
                >> submit_and_prove (text_variable h.variables "HEDERA_HCS_TOPIC_ID")
                    (env.now w.tick))
              w
        | name ∷ names ↦ (ok (not_configured (name ∷ names)), w)
      ]
      else (ok refused, w)
