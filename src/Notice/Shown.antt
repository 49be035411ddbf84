-- ===== src/Notice/Shown.antt =====
-- app/n/[token]/page.tsx: when the page of a notice is shown.
use eps_dapp.Base.{or_else, [], ◌≡◌, refl, true, ◌⊎◌, inl, inr, some, ◌++◌, arith, Text, codes}
use eps_dapp.RateLimit.Lru
use eps_dapp.Db.{ServiceRequest}
use eps_dapp.Effects.{World, Env, ok, crashed, catch-inv, ◌>>=◌, pure}
use eps_dapp.Http.{caller_ip, count_lru}
use eps_dapp.Notice.Access.{load_notice, record_first_access}
use eps_dapp.Notice.Mail.{Mailer}
use eps_dapp.Notice.Page.{
  PageHeaders, sheet, cover_sheet, mail_access, record_view, show_notice, view_counted, notice_page,
}

module _ (env : Env) (m : Mailer) (headers : PageHeaders) (token : Text) where
  record_view_lem :
      (r : ServiceRequest) (w : World)
      → ((record_view env m headers token r w).0 ≡ ok tt)
        ⊎ ((record_view env m headers token r w).0 ≡ crashed)
  unfolding record_view
  record_view_lem r w =
      catch-inv (λ s. (s.0 ≡ ok tt) ⊎ (s.0 ≡ crashed))
        (record_first_access env r.id (caller_ip headers.caller) (or_else headers.user_agent [])
          >>= mail_access env m headers token)
        (λ e. pure tt) w (λ a e. inl refl) (λ e k. inl refl) (λ k. inr refl)

  show_notice_lem :
      (r : ServiceRequest) (w : World)
      → ((show_notice env m headers token (some r) w).0 ≡ ok (sheet (cover_sheet r)))
        ⊎ ((show_notice env m headers token (some r) w).0 ≡ crashed)
  unfolding show_notice
  show_notice_lem r w = ground (arith, record_view_lem r w)

  -- A caller within the limit who asks for a notice that is found is shown its page, unless the
  -- process dies: no failure to record the view, to send the mail or to reach the database for it
  -- stops the page.
  pub page_shown :
      (r : ServiceRequest) (w : World)
      → (Lru.rate_limit
          (codes "notice:" ++ caller_ip headers.caller)
          20
          60000
          (env.now w.tick)
          w.lru_buckets).0.ok
        ≡ true
      → (load_notice env token
          (count_lru env (codes "notice:" ++ caller_ip headers.caller) 20 60000 w).1).0
        ≡ ok (some r)
      → ((notice_page env m headers token w).0 ≡ ok (sheet (cover_sheet r)))
        ⊎ ((notice_page env m headers token w).0 ≡ crashed)
  unfolding notice_page view_counted
  page_shown r w allowed found = ground (
    arith,
    allowed,
    found,
    show_notice_lem r
        (load_notice env token
          (count_lru env (codes "notice:" ++ caller_ip headers.caller) 20 60000 w).1).1,
  )
