-- ===== src/Notice/Once.antt =====
-- lib/noticeAccess.ts: what a view leaves on record, and that it does so once.
use eps_dapp.Base.{
  ◌+◌, ◌≡◌, refl, ap, sym, subst, ◌∙◌, ℕ, true, false, Option, none, some, [], ◌∷◌, ◌++◌, arith,
  Text, inl, inr, ◌⊎◌, any, find, any-append_last, any-or, text_eq, any-of_find, find_meets,
  text_eq→eq, text_eq_refl,
}
use eps_dapp.Db.{Db, ServiceRequest, NoticeAccess, CertificateAddendum}
use eps_dapp.Effects.{World, Env, Result, ok, is_ok, Result-cases, >>=-inv, transaction-inv}
use eps_dapp.Failure.{has_request_id}
use eps_dapp.Notice.Mask.{mask_ip}
use eps_dapp.Notice.Access.{
  ServiceAccess, FirstAccessResult, has_notice, found_access, access_row, access_audit,
  access_result, write_first_viewed_addendum, create_access, audit_access, write_access, view_first,
  recorded, view_recorded, view_service, view_body, record_first_access,
}

module _ (env : Env) (notice ip agent : Text) where
  -- A first view that returns has written its row, the addendum, and the audit row, of one time.
  pub record IsFirstView (at : ℕ) (before after : Db) : Type 0 where
    pub access_id : Text
    pub addendum_id : Text
    pub audit_id : Text
    pub written : after ≡ record before {
      accesses = before.accesses ++ access_row env notice ip agent access_id at ∷ [];
      addenda =
          before.addenda
          ++ record { id = addendum_id; notice_id = notice; viewed_at = at; viewer_ip = mask_ip ip }
            ∷ [];
      audit_log = before.audit_log ++ access_audit env notice ip agent audit_id ∷ [];
    }
    pub unseen : any (has_notice notice) before.accesses ≡ false
    pub first_addendum :
        any (λ (c : CertificateAddendum). text_eq c.notice_id notice) before.addenda ≡ false
    pub known : any (has_request_id notice) before.requests ≡ true

  create_access_lem :
      (w : World) (access : NoticeAccess)
      → (create_access env notice ip agent w).0 ≡ ok access
      → (access ≡ access_row env notice ip agent (env.fresh_id w.tick) access.accessed_at)
        × ((create_access env notice ip agent w).1.db
            ≡ record w.db { accesses = w.db.accesses ++ access ∷ [] })
        × (any (has_request_id notice) w.db.requests ≡ true)
        × (any (has_notice notice) w.db.accesses ≡ false)
  unfolding create_access
  create_access_lem w access e = ground (
    arith,
    any-or (has_notice notice) (λ (a : NoticeAccess). text_eq a.id (env.fresh_id w.tick))
        w.db.accesses,
  )

  write_access_lem :
      (service : Option ServiceAccess) (access : NoticeAccess) (w : World) (r : FirstAccessResult)
      → (write_access env notice ip agent service access w).0 ≡ ok r
      → (r ≡ access_result env notice ip agent true service access.accessed_at)
        × ((write_access env notice ip agent service access w).1.db ≡ record w.db {
          addenda =
              w.db.addenda
              ++ record {
                id = env.fresh_id w.tick;
                notice_id = notice;
                viewed_at = access.accessed_at;
                viewer_ip = mask_ip ip;
              }
                ∷ [];
          audit_log =
              w.db.audit_log ++ access_audit env notice ip agent (env.fresh_id (w.tick + 1)) ∷ [];
        })
        × (any (λ (c : CertificateAddendum). text_eq c.notice_id notice) w.db.addenda ≡ false)
  unfolding write_access write_first_viewed_addendum audit_access
  write_access_lem service access w r e = ground (
    arith,
    any-or (λ (c : CertificateAddendum). text_eq c.notice_id notice)
        (λ (c : CertificateAddendum). text_eq c.id (env.fresh_id w.tick)) w.db.addenda,
  )

  view_first_lem :
      (service : Option ServiceAccess) (w : World) (r : FirstAccessResult)
      → (view_first env notice ip agent service w).0 ≡ ok r
      → (r.is_first_access ≡ true)
        × IsFirstView r.viewed_at w.db (view_first env notice ip agent service w).1.db
  unfolding view_first
  view_first_lem service w r =
      >>=-inv (λ s. s.0 ≡ ok r → (r.is_first_access ≡ true) × IsFirstView r.viewed_at w.db s.1.db)
        (create_access env notice ip agent) w (write_access env notice ip agent service)
        (λ access e k.
          let (row, db, known, unseen) = create_access_lem w access e in
          let w' = (create_access env notice ip agent w).1 in
          let (result, written, none_yet) = write_access_lem service access w' r k in
          (
            ground (arith, result),
            record {
              access_id = env.fresh_id w.tick;
              addendum_id = env.fresh_id w'.tick;
              audit_id = env.fresh_id (w'.tick + 1);
              written = ground (arith, row, db, written, result);
              unseen = unseen;
              first_addendum =
                  ap
                    (λ (db : Db).
                      any (λ (c : CertificateAddendum). text_eq c.notice_id notice) db.addenda)
                    (sym db)
                  ∙ none_yet;
              known = known;
            },
          ))
        (λ s f k e. absurd (ground (arith, f)))

  -- What a view that returns leaves behind: a first view, or a view that is on record already.
  abbrev pub Viewed : Db → FirstAccessResult → Db → Type 0
  Viewed before r after =
      ((r.is_first_access ≡ true) × IsFirstView r.viewed_at before after)
      ⊎ ((r.is_first_access ≡ false)
          × (after ≡ before)
          × (any (has_notice notice) before.accesses ≡ true))

  recorded-Viewed :
      (service : Option ServiceAccess) (found : Option NoticeAccess) (w : World)
      (r : FirstAccessResult)
      → ((access : NoticeAccess)
          → found ≡ some access
          → any (has_notice notice) w.db.accesses ≡ true)
      → (view_recorded env notice ip agent service found w).0 ≡ ok r
      → Viewed w.db r (view_recorded env notice ip agent service found w).1.db
  unfolding view_recorded
  recorded-Viewed service none w r there e = inl (view_first_lem service w r e)
  recorded-Viewed service (some access) w r there e = inr (ground arith, refl, there access refl)

  -- A row that the first query finds is one of the notice.
  found-there :
      (db : Db) (row : Option ServiceRequest) (access : NoticeAccess)
      → find (has_request_id notice) db.requests ≡ row
      → recorded env notice ip agent (found_access db row) ≡ some access
      → any (has_notice notice) db.accesses ≡ true
  found-there db none access f e = absurd (ground arith)
  found-there db (some row) access f e =
      subst (λ id. any (has_notice id) db.accesses ≡ true)
        (text_eq→eq row.id notice (find_meets (has_request_id notice) db.requests row f))
        (any-of_find (has_notice row.id) db.accesses access e)

  body-Viewed :
      (w : World) (r : FirstAccessResult)
      → (view_body env notice ip agent w).0 ≡ ok r
      → Viewed w.db r (view_body env notice ip agent w).1.db
  unfolding view_body view_service
  body-Viewed w r k = elim (Result-cases (env.answers w.tick)) [
    | inl (a, e) ↦
        let service = found_access w.db (find (has_request_id notice) w.db.requests) in
        let w' : World = record w { tick = w.tick + 1 } in
        subst (λ (s : Result FirstAccessResult × World). Viewed w.db r s.1.db)
          {x = view_recorded env notice ip agent service (recorded env notice ip agent service) w'}
          {y = view_body env notice ip agent w} (ground (arith, e))
          (recorded-Viewed service (recorded env notice ip agent service) w' r
            (λ access. found-there w.db (find (has_request_id notice) w.db.requests) access refl)
            (ground (arith, e)))
    | inr other ↦ absurd (ground (arith, other))
  ]

  -- A view of a notice that returns is on record. The first one has written, of one time, the row
  -- of the view, the addendum of the certificate with the masked address, and the audit row, and
  -- the notice is there; a later one has found the row, and changes nothing.
  pub record-Viewed :
      (w : World) (r : FirstAccessResult)
      → (record_first_access env notice ip agent w).0 ≡ ok r
      → Viewed w.db r (record_first_access env notice ip agent w).1.db
  unfolding record_first_access
  record-Viewed w r =
      transaction-inv (λ s. s.0 ≡ ok r → Viewed w.db r s.1.db) (view_body env notice ip agent) w
        (λ a e k. body-Viewed w r (e ∙ k)) (λ s f e k. absurd (ground (arith, f)))

  -- A view that throws, or during which the process dies, leaves every table as it was.
  pub record-atomic :
      (w : World)
      → is_ok (record_first_access env notice ip agent w).0 ≡ false
      → (record_first_access env notice ip agent w).1.db ≡ w.db
  unfolding record_first_access
  record-atomic w =
      transaction-inv (λ s. is_ok s.0 ≡ false → s.1.db ≡ w.db) (view_body env notice ip agent) w
        (λ a e k. absurd (ground arith)) (λ s f e k. refl)

-- After a view that returned, the row of the notice is there.
Viewed-seen :
    (env : Env) (notice ip agent : Text) (before after : Db) (r : FirstAccessResult)
    → Viewed env notice ip agent before r after
    → any (has_notice notice) after.accesses ≡ true
Viewed-seen env notice ip agent before after r (inl (_, first)) =
    ap (λ (db : Db). any (has_notice notice) db.accesses) first.written
    ∙ any-append_last (has_notice notice) before.accesses
        (access_row env notice ip agent first.access_id r.viewed_at) (text_eq_refl notice)
Viewed-seen env notice ip agent before after r (inr (_, same, seen)) =
    ap (λ (db : Db). any (has_notice notice) db.accesses) same ∙ seen

-- After a view that returned, whoever views the notice again changes no table, whatever happens,
-- as long as the tables are as the first view left them.
pub viewed_once :
    (env : Env) (notice ip agent ip_again agent_again : Text) (w later : World)
    (r : FirstAccessResult)
    → (record_first_access env notice ip agent w).0 ≡ ok r
    → later.db ≡ (record_first_access env notice ip agent w).1.db
    → (record_first_access env notice ip_again agent_again later).1.db ≡ later.db
viewed_once env notice ip agent ip_again agent_again w later r e same =
    elim (Result-cases (record_first_access env notice ip_again agent_again later).0) [
      | inl (s, k) ↦ elim (record-Viewed env notice ip_again agent_again later s k) [
        | inl (_, first) ↦ absurd (
            ground (
              arith,
              first.unseen,
              ap (λ (db : Db). any (has_notice notice) db.accesses) same,
              Viewed-seen env notice ip agent w.db (record_first_access env notice ip agent w).1.db
                  r (record-Viewed env notice ip agent w r e),
            ))
        | inr (_, kept, _) ↦ kept
      ]
      | inr other ↦ record-atomic env notice ip_again agent_again later (ground (arith, other))
    ]
