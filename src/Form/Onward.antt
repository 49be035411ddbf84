-- ===== src/Form/Onward.antt =====
-- app/dashboard/[id]/LiveStatus.tsx: what the badge shows, although answers may come out of order.
use mathlib.Core.List.{Memᴰ}
use eps_dapp.Base.{none, some, List, All}
use eps_dapp.Db.{ServiceStatus}
use eps_dapp.Lifecycle.{Step, Reaches}
use eps_dapp.Form.Live.{LiveStatus, poll_status, show_status, rerun_effect}

-- The request in the tables and the badge in the browser. The request goes on along its life cycle;
-- an answer is one that is under way, or no status: an error of the network or of the route. The
-- effect runs again some time after another status was shown.
pub data Watches : ServiceStatus → LiveStatus → ServiceStatus → LiveStatus → Type 0 where
  advances : {s t : ServiceStatus} {l : LiveStatus} → Step s t → Watches s l t l
  polls : {s : ServiceStatus} {l : LiveStatus} → Watches s l s (poll_status s l)
  hears :
      {s : ServiceStatus} {l : LiveStatus} (read : ServiceStatus)
      → Memᴰ read l.under_way
      → Watches s l s (show_status (some read) l)
  misses : {s : ServiceStatus} {l : LiveStatus} → Watches s l s (show_status none l)
  reruns : {s : ServiceStatus} {l : LiveStatus} → Watches s l s (rerun_effect l)

pub data Watched (s : ServiceStatus) (l : LiveStatus) : ServiceStatus → LiveStatus → Type 0 where
  unwatched : Watched s l s l
  then_watches :
      {t u : ServiceStatus} {m n : LiveStatus} → Watched s l t m → Watches t m u n → Watched s l u n

-- Between the status that the effect was run for and the one in the tables.
abbrev Between : ServiceStatus → ServiceStatus → ServiceStatus → Type 0
Between s from read = Reaches from read × Reaches read s

abbrev IsBehind : ServiceStatus → LiveStatus → Type 0
IsBehind s l = Between s l.polled_for l.status × All (Between s l.polled_for) l.under_way
