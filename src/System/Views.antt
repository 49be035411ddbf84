-- ===== src/System/Views.antt =====
-- lib/noticeAccess.ts and app/n/[token]/page.tsx: whoever looks at a notice leaves the requests alone.
use eps_dapp.Base.{
  refl, Option, none, some, arith, Text, Bool-cases, inl, inr, or_else, subst, find, [], ◌+◌,
}
use eps_dapp.Db.{ServiceRequest, NoticeAccess}
use eps_dapp.Effects.{World, Env, Result-cases, ◌>>=◌, pure}
use eps_dapp.Failure.{has_request_id}
use eps_dapp.RateLimit.Lru
use eps_dapp.Lifecycle.{Evolved, same-Evolved}
use eps_dapp.Http.{caller_ip}
use eps_dapp.Notice.Access.{
  FirstAccessResult, ServiceAccess, recorded, found_access, write_first_viewed_addendum,
  create_access, audit_access, write_access, view_first, view_recorded, view_service, view_body,
  record_first_access, load_notice,
}
use eps_dapp.Notice.Mail.{Mailer, send_first_access_email}
use eps_dapp.Notice.Page.{
  PageHeaders, sheet, cover_sheet, mail_access, record_view, show_notice, view_counted, notice_page,
}
use eps_dapp.System.Rules.{
  Keeps, Evolves, Keeps-Evolves, catch-Evolves, >>=-Evolves, transaction-Evolves,
}

module _ (env : Env) where
  module _ (notice ip agent : Text) where
    create_access-Keeps : Keeps (create_access env notice ip agent)
    unfolding create_access
    create_access-Keeps w = ground arith

    write_access-Keeps :
        (service : Option ServiceAccess) (access : NoticeAccess)
        → Keeps (write_access env notice ip agent service access)
    unfolding write_access write_first_viewed_addendum audit_access
    write_access-Keeps service access w = ground arith

    recorded-Evolves :
        (service : Option ServiceAccess) (found : Option NoticeAccess)
        → Evolves (view_recorded env notice ip agent service found)
    unfolding view_recorded view_first
    recorded-Evolves service (some access) =
        Keeps-Evolves (view_recorded env notice ip agent service (some access)) (λ w. refl)
    recorded-Evolves service none =
        >>=-Evolves (create_access env notice ip agent) (write_access env notice ip agent service)
          (Keeps-Evolves (create_access env notice ip agent) create_access-Keeps)
          (λ access.
            Keeps-Evolves (write_access env notice ip agent service access)
              (write_access-Keeps service access))

    view_body-Evolves : Evolves (view_body env notice ip agent)
    unfolding view_body view_service
    view_body-Evolves w unique = elim (Result-cases (env.answers w.tick)) [
      | inl (a, k) ↦
          let service = found_access w.db (find (has_request_id notice) w.db.requests) in
          let w' : World = record w { tick = w.tick + 1 } in
          subst (λ (s : World). Evolved w.db s.db)
            {x = (view_recorded env notice ip agent service (recorded env notice ip agent service)
              w').1}
            {y = (view_body env notice ip agent w).1} (ground (arith, k))
            (recorded-Evolves service (recorded env notice ip agent service) w' unique)
      | inr other ↦ same-Evolved w.db _ unique (ground (arith, other))
    ]

    pub view-Evolves : Evolves (record_first_access env notice ip agent)
    unfolding record_first_access
    view-Evolves = transaction-Evolves (view_body env notice ip agent) view_body-Evolves

  module _ (m : Mailer) (headers : PageHeaders) (token : Text) where
    mail-Keeps : (access : FirstAccessResult) → Keeps (mail_access env m headers token access)
    unfolding mail_access send_first_access_email
    mail-Keeps access w = ground arith

    show-Evolves : (r : Option ServiceRequest) → Evolves (show_notice env m headers token r)
    unfolding show_notice record_view
    show-Evolves none = Keeps-Evolves (show_notice env m headers token none) (λ w. refl)
    show-Evolves (some r) =
        >>=-Evolves (record_view env m headers token r) (λ _. pure (sheet (cover_sheet r)))
          (catch-Evolves
            (record_first_access env r.id (caller_ip headers.caller) (or_else headers.user_agent [])
              >>= mail_access env m headers token)
            (λ e. pure tt)
            (>>=-Evolves
              (record_first_access env r.id (caller_ip headers.caller)
                (or_else headers.user_agent []))
              (mail_access env m headers token) (view-Evolves r.id _ _)
              (λ access.
                Keeps-Evolves (mail_access env m headers token access) (mail-Keeps access)))
            (λ e. Keeps-Evolves (pure tt) (λ w. refl)))
          (λ _. Keeps-Evolves (pure (sheet (cover_sheet r))) (λ w. refl))

    load-Keeps : Keeps (load_notice env token)
    unfolding load_notice
    load-Keeps w = ground arith

    counted-Evolves :
        (counted : Lru.RateLimitResult) → Evolves (view_counted env m headers token counted)
    unfolding view_counted
    counted-Evolves counted w unique = elim (Bool-cases counted.ok) [
      | inl e ↦ simp e (
          >>=-Evolves (load_notice env token) (show_notice env m headers token)
            (Keeps-Evolves (load_notice env token) load-Keeps) show-Evolves w unique)
      | inr e ↦ same-Evolved w.db _ unique (ground (arith, e))
    ]

    pub page-Evolves : Evolves (notice_page env m headers token)
    unfolding notice_page
    page-Evolves w unique = counted-Evolves _ _ unique
