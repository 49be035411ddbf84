-- ===== src/Hedera/Tasks.antt =====
-- The columns of a request that hold its Hedera proofs, and who writes them: the two tasks that
-- worker/process.ts does not wait for, and `anchorOnHedera` of app/api/service-requests/route.ts.
use eps_dapp.Base.{Option, none, some, [], or_else, ◌||◌, if◌then◌else◌, Text, codes, is_some}
use eps_dapp.Db.{ServiceRequest, requests_table}
use eps_dapp.Effects.{Action, Env, ◌>>=◌, ◌>>◌, pure, catch, update}
use eps_dapp.Failure.{has_request_id}
use eps_dapp.Hedera.Sdk.{Hedera}
use eps_dapp.Hedera.Service.{
  HcsResult, HtsMintResult, HederaServiceResult, HederaPayload, record_on_hedera,
}
use eps_dapp.Hedera.Transfer.{ProofNftTransferResult, mint_and_transfer_proof_nft}

abbrev pub with_hcs : Option HcsResult → ServiceRequest → ServiceRequest
with_hcs none r = r
with_hcs (some hcs) r = record r {
  hcs_topic_id = some hcs.topic_id;
  hcs_sequence_number = some hcs.sequence_number;
  hcs_consensus_time = hcs.consensus_timestamp;
  hcs_tx_id = some hcs.transaction_id;
  hcs_mirror_url = some hcs.mirror_node_url;
}

abbrev pub with_hts : Option HtsMintResult → ServiceRequest → ServiceRequest
with_hts none r = r
with_hts (some hts) r = record r {
  hts_token_id = some hts.token_id;
  hts_serial_number = some hts.serial_number;
  hts_tx_id = some hts.transaction_id;
  hts_mirror_url = some hts.mirror_node_url;
}

abbrev pub with_proofs : HederaServiceResult → ServiceRequest → ServiceRequest
with_proofs result r = with_hts result.hts (with_hcs result.hcs r)

abbrev pub with_transfer : ProofNftTransferResult → ServiceRequest → ServiceRequest
with_transfer nft r = record r {
  hts_token_id = some nft.token_id;
  hts_nft_serial = some nft.serial;
  hts_transfer_tx = some nft.transfer_tx;
}

-- `agentENSName ?? process.env.EVM_APP_WALLET_ADDRESS ?? "eps-agent"`.
abbrev pub served_by : Hedera → Option Text → Text
served_by h (some name) = name
served_by h none = or_else (h.variables (codes "EVM_APP_WALLET_ADDRESS")) (codes "eps-agent")

abbrev pub payload_of : Hedera → ServiceRequest → HederaPayload
payload_of h row = record {
  delivery_id = row.id;
  document_hash = or_else row.document_sha256 [];
  case_ref = row.case_caption;
  served_to = row.recipient_wallet;
  served_by = served_by h row.agent_ens_name;
}

module _ (env : Env) (h : Hedera) where
  -- The update, if there is anything to write.
  unfoldable pub persist_proofs : Text → HederaServiceResult → Action (Unit {0})
  persist_proofs id result =
      if is_some result.hcs || is_some result.hts
      then (update env requests_table (has_request_id id) (with_proofs result) >> pure tt)
      else pure tt

  -- `anchorOnHedera(id, payload)`, and the first task of the worker: errors are swallowed.
  unfoldable pub anchor_on_hedera : Text → HederaPayload → Action (Unit {0})
  anchor_on_hedera id payload =
      catch (record_on_hedera env h payload >>= persist_proofs id) (λ e. pure tt)

  unfoldable pub run_anchor : ServiceRequest → Action (Unit {0})
  run_anchor row = anchor_on_hedera row.id (payload_of h row)

  unfoldable pub persist_transfer : Text → Option ProofNftTransferResult → Action (Unit {0})
  persist_transfer id none = pure tt
  persist_transfer id (some nft) =
      update env requests_table (has_request_id id) (with_transfer nft) >> pure tt

  -- The second task of the worker.
  unfoldable pub run_transfer : ServiceRequest → Action (Unit {0})
  run_transfer row =
      catch
        (mint_and_transfer_proof_nft h (record {
          case_id = row.id;
          hcs_topic_id = h.variables (codes "HEDERA_HCS_TOPIC_ID");
          hcs_sequence_number = none;
        })
          >>= persist_transfer row.id)
        (λ e. pure tt)
