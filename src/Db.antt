-- ===== src/Db.antt =====
-- The database of prisma/schema.prisma: the rows that the code reads and writes, and the tables.
-- A table is the list of its rows; a time is a `Date`'s time value in milliseconds. The statements
-- that change the tables are in `Effects`.
use eps_dapp.Base.{ℕ, Bool, true, false, Option, List, Text}

pub record Organization : Type 0 where
  pub id : Text
  pub clerk_org_id : Text
  pub name : Text
  pub owner_email : Option Text

pub data SubscriptionStatus : Type 0 where
  active canceled past_due : SubscriptionStatus

pub record Subscription : Type 0 where
  pub id : Text
  pub org_id : Text
  pub tier_id : Text
  pub status : SubscriptionStatus
  pub period_start : ℕ
  pub period_end : ℕ
  pub usage_count : ℕ

pub record WebhookEvent : Type 0 where
  pub id : Text
  pub event_id : Text

pub data ServiceStatus : Type 0 where
  staged in_progress confirmed failed : ServiceStatus

pub record ServiceRequest : Type 0 where
  pub id : Text
  pub user_id : Option Text
  pub org_id : Option Text
  pub case_caption : Text
  pub plaintiff_name : Text
  pub defendant_name : Text
  pub recipient_wallet : Text
  pub recipient_ens_name : Option Text
  pub court_order_flag : Bool
  pub attested_at : ℕ
  pub notice_token : Option Text
  pub document_sha256 : Option Text
  pub status : ServiceStatus
  pub tx_signature : Option Text
  pub slot : Option ℕ
  pub block_time : Option ℕ
  pub failure_reason : Option Text
  pub created_at : ℕ
  pub ens_display_name : Option Text
  pub agent_ens_name : Option Text
  pub hcs_topic_id : Option Text
  pub hcs_sequence_number : Option ℕ
  pub hcs_consensus_time : Option Text
  pub hcs_tx_id : Option Text
  pub hcs_mirror_url : Option Text
  pub hts_token_id : Option Text
  pub hts_serial_number : Option ℕ
  pub hts_tx_id : Option Text
  pub hts_mirror_url : Option Text
  pub hts_nft_serial : Option ℕ
  pub hts_transfer_tx : Option Text

pub record NoticeAccess : Type 0 where
  pub id : Text
  pub notice_id : Text
  pub ip : Text
  pub user_agent : Text
  pub accessed_at : ℕ

pub record CertificateAddendum : Type 0 where
  pub id : Text
  pub notice_id : Text
  pub viewed_at : ℕ
  pub viewer_ip : Text

pub record CertificatePdf : Type 0 where
  pub id : Text
  pub notice_id : Text
  pub pdf_base64 : Text

-- The action of an audit row, with the metadata that the action carries.
pub data AuditDetail : Type 0 where
  -- orgId, objectKey, sha256
  service_request_staged : Text → Text → Text → AuditDetail
  -- orgId, reason, quotaRestored, txSignature
  service_failed : Option Text → Text → Bool → Option Text → AuditDetail
  -- viewerIp
  notice_first_accessed : Text → AuditDetail
  -- subscriptionId, actorOrgId
  comp_grant : Text → Text → AuditDetail

pub record AuditLog : Type 0 where
  pub id : Text
  pub detail : AuditDetail
  pub actor_id : Text
  pub target_id : Text

pub record Db : Type 0 where
  pub organizations : List Organization
  pub subscriptions : List Subscription
  pub webhook_events : List WebhookEvent
  pub requests : List ServiceRequest
  pub accesses : List NoticeAccess
  pub addenda : List CertificateAddendum
  pub certificates : List CertificatePdf
  pub audit_log : List AuditLog

-- A table: how its rows are read from the database, and how they are put back.
pub record Table (Row : Type 0) : Type 0 where
  pub rows : Db → List Row
  pub put : List Row → Db → Db

abbrev pub organizations_table : Table Organization
organizations_table = record {
  rows = λ db. db.organizations;
  put = λ rows db. record db { organizations = rows };
}

abbrev pub subscriptions_table : Table Subscription
subscriptions_table = record {
  rows = λ db. db.subscriptions;
  put = λ rows db. record db { subscriptions = rows };
}

abbrev pub webhook_events_table : Table WebhookEvent
webhook_events_table = record {
  rows = λ db. db.webhook_events;
  put = λ rows db. record db { webhook_events = rows };
}

abbrev pub requests_table : Table ServiceRequest
requests_table = record { rows = λ db. db.requests; put = λ rows db. record db { requests = rows } }

abbrev pub accesses_table : Table NoticeAccess
accesses_table = record { rows = λ db. db.accesses; put = λ rows db. record db { accesses = rows } }

abbrev pub addenda_table : Table CertificateAddendum
addenda_table = record { rows = λ db. db.addenda; put = λ rows db. record db { addenda = rows } }

abbrev pub certificates_table : Table CertificatePdf
certificates_table = record {
  rows = λ db. db.certificates;
  put = λ rows db. record db { certificates = rows };
}

abbrev pub audit_log_table : Table AuditLog
audit_log_table = record {
  rows = λ db. db.audit_log;
  put = λ rows db. record db { audit_log = rows };
}

abbrev pub is_active : SubscriptionStatus → Bool
is_active SubscriptionStatus.active = true
is_active _ = false
