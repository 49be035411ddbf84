-- ===== src/Form/Live.antt =====
-- app/dashboard/[id]/LiveStatus.tsx: the badge that polls the status of a request. Of the requests
-- under way, the state has the answers that were read and are not cancelled.
use eps_dapp.Base.{ℕ, ◌+◌, Bool, true, false, Option, none, some, List, [], ◌∷◌, if◌then◌else◌}
use eps_dapp.Db.{ServiceStatus}

-- `TERMINAL`.
abbrev pub is_terminal : ServiceStatus → Bool
is_terminal ServiceStatus.staged = false
is_terminal ServiceStatus.in_progress = false
is_terminal ServiceStatus.confirmed = true
is_terminal ServiceStatus.failed = true

-- `data.status === status`.
abbrev pub same_status : ServiceStatus → ServiceStatus → Bool
same_status ServiceStatus.staged ServiceStatus.staged = true
same_status ServiceStatus.in_progress ServiceStatus.in_progress = true
same_status ServiceStatus.confirmed ServiceStatus.confirmed = true
same_status ServiceStatus.failed ServiceStatus.failed = true
same_status s t = false

pub record LiveStatus : Type 0 where
  -- what is shown, and the status that the effect which polls was run for
  pub status : ServiceStatus
  pub polled_for : ServiceStatus
  pub under_way : List ServiceStatus
  -- how often the page was refreshed
  pub refreshes : ℕ

unfoldable pub new_live_status : ServiceStatus → LiveStatus
new_live_status initial = record {
  status = initial;
  polled_for = initial;
  under_way = [];
  refreshes = 0;
}

-- A tick of the effect's interval, whose request reads this status; there is none at the end.
unfoldable pub poll_status : ServiceStatus → LiveStatus → LiveStatus
poll_status read l =
    if is_terminal l.polled_for then l else record l { under_way = read ∷ l.under_way }

-- An answer to a request of the effect, which compares it with the status that it was run for.
-- `setStatus` cancels nothing: other answers can come before the effect is run again.
unfoldable pub show_status : Option ServiceStatus → LiveStatus → LiveStatus
show_status none l = l
show_status (some read) l =
    if same_status read l.polled_for
    then l
    else record l { status = read; refreshes = l.refreshes + 1 }

-- The effect runs again for the status that is shown, after its cleanup has cancelled the requests
-- under way.
unfoldable pub rerun_effect : LiveStatus → LiveStatus
rerun_effect l = record l { polled_for = l.status; under_way = [] }
