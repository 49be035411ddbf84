-- ===== src/Notice/Mail.antt =====
-- lib/email.ts: `sendFirstAccessEmail`. lib/email/send-first-access-alert.ts and
-- lib/email/send-notified-receipt.ts: the two e-mails about a notice, which read the database. The
-- mail service is a parameter.
use Prim.Native.String.{String}
use eps_dapp.Base.{
  ℕ, Bool, false, Option, none, some, or_else, [], ◌∷◌, ◌++◌, find, is_empty, if◌then◌else◌, Text,
  codes, join_with,
}
use eps_dapp.Calendar.{utc_text}
use eps_dapp.Variables.{Variables, text_variable}
use eps_dapp.Db.{Db, ServiceRequest}
use eps_dapp.Effects.{Action, Env, Result, ok, ◌>>=◌, pure, catch, statement, mail}
use eps_dapp.Failure.{has_request_id}
use eps_dapp.Hedera.Sdk.{send_out}
use eps_dapp.Notice.Access.{owner_of}

pub record Mailer : Type 0 where
  pub variables : Variables
  -- the POST to Resend: whether it was accepted; and the Resend client's `emails.send`
  pub post_mail : ℕ → Text → Text → Text → Result Bool
  pub send_mail : ℕ → Text → Text → Text → Result (Unit {0})

pub record FirstAccessEmail : Type 0 where
  pub to : Text
  pub case_ref : Text
  pub masked_ip : Text
  pub viewed_at : ℕ
  pub notice_url : Text

unfoldable pub email_text : FirstAccessEmail → Text
unfolding join_with
email_text email = join_with 10 (
    codes "Your served notice was viewed for the first time."
    ∷ []
    ∷ (codes "Case: " ++ email.case_ref)
    ∷ (codes "Viewed (UTC): " ++ utc_text email.viewed_at)
    ∷ (codes "Recipient IP (masked): " ++ email.masked_ip)
    ∷ (codes "Notice: " ++ email.notice_url)
    ∷ []
    ∷ codes "This is an automated alert. EPS facilitates service of process and"
    ∷ codes "generates court-ready proof of on-chain delivery."
    ∷ [])

-- `sendFirstAccessEmail(email)`: whether it was sent; without a key, nothing is.
unfoldable pub send_first_access_email : Mailer → FirstAccessEmail → Action Bool
send_first_access_email m email =
    if is_empty (text_variable m.variables "RESEND_API_KEY")
    then pure false
    else (let subject : Text = codes "Notice viewed: " ++ email.case_ref in
        send_out (mail email.to subject (email_text email))
          (λ t. m.post_mail t email.to subject (email_text email)))

-- The caption and the owner's address.
pub record MailView : Type 0 where
  pub case_caption : Text
  pub owner_email : Option Text

abbrev pub mail_view : Db → Option ServiceRequest → Option MailView
mail_view db none = none
mail_view db (some r) =
    some (record { case_caption = r.case_caption; owner_email = owner_of db r.org_id })

module _ (env : Env) (m : Mailer) where
  abbrev pub find_mail_view : Text → Action (Option MailView)
  find_mail_view notice =
      statement env (λ db. (ok (mail_view db (find (has_request_id notice) db.requests)), db))

  -- A mail to the owner, if there is one.
  unfoldable pub mail_owner : String → String → Option MailView → Action (Unit {0})
  mail_owner subject rest none = pure tt
  mail_owner subject rest (some notice) =
      let to : Text = or_else notice.owner_email [] in
      if is_empty to
      then pure tt
      else (let title : Text = codes subject ++ notice.case_caption in
          let body : Text = codes "Notice for " ++ notice.case_caption ++ codes rest in
          send_out (mail to title body) (λ t. m.send_mail t to title body))

  -- `sendFirstAccessAlert(noticeId)`: failures are swallowed.
  unfoldable pub send_first_access_alert : Text → Action (Unit {0})
  send_first_access_alert notice =
      catch
        (find_mail_view notice
          >>= mail_owner "EPS Notice First Accessed: " " was first viewed by the recipient.")
        (λ e. pure tt)

  -- `sendNotifiedReceipt(noticeId)`.
  unfoldable pub send_notified_receipt : Text → Action (Unit {0})
  send_notified_receipt notice =
      catch
        (find_mail_view notice
          >>= mail_owner "EPS Notice Served: " " has been served and recorded on-chain.")
        (λ e. pure tt)
