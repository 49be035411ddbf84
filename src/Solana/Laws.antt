-- ===== src/Solana/Laws.antt =====
-- lib/chain/solana.ts and lib/solana/validate-address.ts: what the guards keep out.
use mathlib.Core.List.{Memᴰ}
use eps_dapp.Base.{◌≡◌, true, false, some, arith, Text}
use eps_dapp.Effects.{World, err, is_ok, Error, malformed, invalid_recipient}
use eps_dapp.Solana.Cluster.{Rpc, RejectsZero}
use eps_dapp.Solana.Calls.{
  Adapter, DeliverParams, is_mainnet_url, assert_not_mainnet_url, assert_valid_recipient,
  get_solana_adapter, get_rent_exempt_minimum, send, confirm, get_memo,
}

module _ (rpc : Rpc) (w : World) where
  -- Building an adapter touches nothing, and fails when the endpoint is on mainnet.
  pub adapter-keeps : (get_solana_adapter rpc w).1 ≡ w
  unfolding get_solana_adapter assert_not_mainnet_url
  adapter-keeps = ground arith

  pub adapter-mainnet :
      (url : Text)
      → rpc.rpc_url ≡ some url
      → is_mainnet_url url ≡ true
      → is_ok (get_solana_adapter rpc w).0 ≡ false
  unfolding get_solana_adapter assert_not_mainnet_url
  adapter-mainnet url e m = ground arith

  pub rent-keeps :
      ((get_rent_exempt_minimum rpc w).1.db ≡ w.db)
      × ((get_rent_exempt_minimum rpc w).1.sent ≡ w.sent)
  unfolding get_rent_exempt_minimum assert_not_mainnet_url
  rent-keeps = ground arith

  -- An address that is refused is not sent to.
  pub send_refused :
      (a : Adapter) (p : DeliverParams) (e : Error)
      → assert_valid_recipient rpc p.recipient_wallet ≡ err e
      → send rpc a p w ≡ (err e, w)
  unfolding send
  send_refused a p e h = rw h

  pub send-keeps : (a : Adapter) (p : DeliverParams) → (send rpc a p w).1.db ≡ w.db
  unfolding send
  send-keeps a p = ground arith

  pub confirm-keeps :
      (signature : Text)
      → ((confirm rpc signature w).1.db ≡ w.db) × ((confirm rpc signature w).1.sent ≡ w.sent)
  unfolding confirm
  confirm-keeps signature = ground arith

  pub get_memo-keeps :
      (signature : Text)
      → ((get_memo rpc signature w).1.db ≡ w.db) × ((get_memo rpc signature w).1.sent ≡ w.sent)
  unfolding get_memo
  get_memo-keeps signature = ground arith

-- An EVM address, as any text with a zero in it, is no Solana recipient.
pub valid_recipient_zero :
    (rpc : Rpc) (addr : Text)
    → RejectsZero rpc
    → Memᴰ b'0' addr
    → assert_valid_recipient rpc addr ≡ err (invalid_recipient addr malformed)
unfolding assert_valid_recipient
valid_recipient_zero rpc addr law m = rw (law.zero_refused addr m)
