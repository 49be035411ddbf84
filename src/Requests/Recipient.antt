-- ===== src/Requests/Recipient.antt =====
-- app/api/service-requests/route.ts: steps (2a) and (2b) of `POST`, the wallet that a request is
-- served to.
use eps_dapp.Base.{
  Bool, not, ◌&&◌, ◌||◌, Option, none, some, all, is_empty, ◌==◌, if◌then◌else◌, Text, codes,
  text_eq, includes, trim,
}
use eps_dapp.Chains.Address.{is_evm_address, is_digit}
use eps_dapp.Variables.{Variables}
use eps_dapp.Effects.{Action, ◌>>=◌, pure}
use eps_dapp.Ens.Resolver.{EnsClient, EnsResolution, resolve_ens}
use eps_dapp.Requests.Input.{FilingInput}

-- The wallet, and the name that it was found by.
pub record ResolvedRecipient : Type 0 where
  pub wallet : Text
  pub ens_display_name : Option Text

-- It has a dot, and is not made of digits and dots.
unfoldable pub looks_like_name : Text → Bool
unfolding includes
looks_like_name input = includes (codes ".") input && not (all (λ c. is_digit c || c == b'.') input)

-- `recipientResolvedAddress?.trim()`, if it is an EVM address.
unfoldable pub client_address : Option Text → Option Text
unfolding is_evm_address trim
client_address none = none
client_address (some sent) = if is_evm_address (trim sent) then some (trim sent) else none

abbrev pub shown_name : EnsResolution → Text → Option Text
shown_name r address = if text_eq r.display_name address then none else some r.display_name

-- The address of the form, or a refusal if the input is a name.
abbrev pub from_client : EnsResolution → Text → Option Text → Option ResolvedRecipient
from_client r input (some address) =
    some (record { wallet = address; ens_display_name = some input })
from_client r input none =
    if r.was_ens_name then none else some (record { wallet = input; ens_display_name = none })

-- The three branches; an empty address is none.
unfoldable pub choose_recipient :
    FilingInput → EnsResolution → Option Text → Option ResolvedRecipient
unfolding client_address text_eq
choose_recipient input r none =
    from_client r input.recipient_wallet (client_address input.recipient_resolved_address)
choose_recipient input r (some address) =
    if is_empty address
    then from_client r input.recipient_wallet (client_address input.recipient_resolved_address)
    else some (record { wallet = address; ens_display_name = shown_name r address })

module _ (ens : EnsClient) (vars : Variables) where
  -- None where the name does not resolve.
  unfoldable pub resolve_recipient : FilingInput → Action (Option ResolvedRecipient)
  resolve_recipient input =
      if looks_like_name input.recipient_wallet
      then (resolve_ens ens vars input.recipient_wallet >>= λ r.
          pure (choose_recipient input r r.address))
      else pure (some (record { wallet = input.recipient_wallet; ens_display_name = none }))
