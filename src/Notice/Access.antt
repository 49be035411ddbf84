-- ===== src/Notice/Access.antt =====
-- lib/notice.ts: `loadNotice`. lib/noticeAccess.ts: `recordFirstAccess`. lib/certificate.ts:
-- `writeFirstViewedAddendum`. The e-mail that `recordFirstAccess` starts and does not wait for is a
-- task.
use eps_dapp.Base.{
  ℕ, Bool, true, false, ◌||◌, Option, none, some, [], ◌∷◌, ◌++◌, any, find, if◌then◌else◌, Text,
  codes, text_eq, trim, to_lower,
}
use eps_dapp.Db.{
  Db, Organization, ServiceRequest, NoticeAccess, CertificateAddendum, AuditLog, Table,
  notice_first_accessed, requests_table, accesses_table, addenda_table, audit_log_table,
}
use eps_dapp.Effects.{
  Action, Env, Result, ok, err, ◌>>=◌, ◌>>◌, pure, transaction, statement, create, spawn,
  find_unique, first_access_alert, unique_violation, foreign_key_violation,
}
use eps_dapp.Failure.{has_request_id}
use eps_dapp.Notice.Mask.{mask_ip, is_token}

abbrev pub has_token : Text → ServiceRequest → Bool
has_token token r = elim r.notice_token [ none ↦ false | some t ↦ text_eq t token ]

abbrev pub has_notice : Text → NoticeAccess → Bool
has_notice notice a = text_eq a.notice_id notice

-- What the first query gives: the caption and the owner's address, and the view that is on record.
pub record ServiceAccess : Type 0 where
  pub case_caption : Text
  pub owner_email : Option Text
  pub access : Option NoticeAccess

pub record FirstAccessResult : Type 0 where
  pub is_first_access : Bool
  pub owner_email : Option Text
  pub case_ref : Text
  pub masked_ip : Text
  pub viewed_at : ℕ

pub record FirstViewedAddendum : Type 0 where
  pub notice_id : Text
  pub viewed_at : ℕ
  pub viewer_ip : Text

abbrev pub owner_of : Db → Option Text → Option Text
owner_of db none = none
owner_of db (some org) = elim (find (λ (o : Organization). text_eq o.id org) db.organizations) [
  | none ↦ none
  | some o ↦ o.owner_email
]

abbrev pub service_access : Db → ServiceRequest → ServiceAccess
service_access db r = record {
  case_caption = r.case_caption;
  owner_email = owner_of db r.org_id;
  access = find (has_notice r.id) db.accesses;
}

abbrev pub found_access : Db → Option ServiceRequest → Option ServiceAccess
found_access db none = none
found_access db (some r) = some (service_access db r)

-- A row of a table whose notice has to be there, and has no row of the table yet.
abbrev pub insert_for_notice :
    {Row : Type 0} → Table Row → (Row → Bool) → Text → Row → Db → Result Row × Db
insert_for_notice t clashes notice row db =
    if any clashes (t.rows db)
    then (err unique_violation, db)
    else if any (has_request_id notice) db.requests
    then (ok row, t.put (t.rows db ++ row ∷ []) db)
    else (err foreign_key_violation, db)

module _ (env : Env) where
  -- `loadNotice(token)`.
  unfoldable pub load_notice : Text → Action (Option ServiceRequest)
  unfolding is_token trim to_lower text_eq
  load_notice token =
      let normalized = to_lower (trim token) in
      if is_token normalized
      then find_unique env requests_table (has_token normalized)
      else pure none

  -- `writeFirstViewedAddendum(tx, addendum)`.
  unfoldable pub write_first_viewed_addendum : FirstViewedAddendum → Action CertificateAddendum
  write_first_viewed_addendum a w =
      statement env
        (insert_for_notice addenda_table
          (λ (c : CertificateAddendum).
            text_eq c.notice_id a.notice_id || text_eq c.id (env.fresh_id w.tick))
          a.notice_id
          (record {
            id = env.fresh_id w.tick;
            notice_id = a.notice_id;
            viewed_at = a.viewed_at;
            viewer_ip = a.viewer_ip;
          }))
        w

  module _ (notice ip agent : Text) where
    abbrev pub access_row : Text → ℕ → NoticeAccess
    access_row id now = record {
      id = id;
      notice_id = notice;
      ip = ip;
      user_agent = agent;
      accessed_at = now;
    }

    unfoldable pub create_access : Action NoticeAccess
    create_access w =
        statement env
          (insert_for_notice accesses_table
            (λ (a : NoticeAccess). has_notice notice a || text_eq a.id (env.fresh_id w.tick)) notice
            (access_row (env.fresh_id w.tick) (env.now w.tick)))
          w

    abbrev pub access_audit : Text → AuditLog
    access_audit fresh = record {
      id = fresh;
      detail = notice_first_accessed (mask_ip ip);
      actor_id = codes "public";
      target_id = notice;
    }

    unfoldable pub audit_access : Action AuditLog
    audit_access w =
        create env audit_log_table (λ (a : AuditLog). text_eq a.id (env.fresh_id w.tick))
          (access_audit (env.fresh_id w.tick)) w

    abbrev pub access_result : Bool → Option ServiceAccess → ℕ → FirstAccessResult
    access_result first service at = record {
      is_first_access = first;
      owner_email = elim service [ none ↦ none | some s ↦ s.owner_email ];
      case_ref = elim service [ none ↦ [] | some s ↦ s.case_caption ];
      masked_ip = mask_ip ip;
      viewed_at = at;
    }

    -- The writes of a first view.
    unfoldable pub write_access : Option ServiceAccess → NoticeAccess → Action FirstAccessResult
    write_access service access =
        write_first_viewed_addendum
          (record { notice_id = notice; viewed_at = access.accessed_at; viewer_ip = mask_ip ip })
        >> audit_access
        >> spawn (first_access_alert notice)
        >> pure (access_result true service access.accessed_at)

    unfoldable pub view_first : Option ServiceAccess → Action FirstAccessResult
    view_first service = create_access >>= write_access service

    abbrev pub recorded : Option ServiceAccess → Option NoticeAccess
    recorded none = none
    recorded (some service) = service.access

    -- A view that is on record already is reported with its time, and nothing is written.
    unfoldable pub view_recorded :
        Option ServiceAccess → Option NoticeAccess → Action FirstAccessResult
    view_recorded service (some access) = pure (access_result false service access.accessed_at)
    view_recorded service none = view_first service

    unfoldable pub view_service : Option ServiceAccess → Action FirstAccessResult
    view_service service = view_recorded service (recorded service)

    unfoldable pub view_body : Action FirstAccessResult
    view_body =
        statement env (λ db. (ok (found_access db (find (has_request_id notice) db.requests)), db))
        >>= view_service

    -- `recordFirstAccess(noticeId, ip, userAgent)`.
    unfoldable pub record_first_access : Action FirstAccessResult
    record_first_access = transaction view_body
