-- ===== src/Ens/Resolver.antt =====
-- lib/ens/ENSResolver.ts: `resolveENS`, `getAgentENSName` and `getAgentTextRecord`. The client of
-- @ensdomains/ensjs is a parameter; its answers may differ at each tick.
use eps_dapp.Base.{
  ℕ, Bool, true, false, not, ◌&&◌, ◌||◌, Option, none, some, or_else, is_empty, if◌then◌else◌, Text,
  codes, includes, trim,
}
use eps_dapp.Chains.Address.{is_evm_address}
use eps_dapp.Variables.{Variables, text_variable}
use eps_dapp.Effects.{Action, Result, ◌>>=◌, pure, call, catch}

pub record EnsClient : Type 0 where
  -- the value of a name's address record, the name of an address, and a text record by its name
  -- and key; none where there is none
  pub address_record : ℕ → Text → Result (Option Text)
  pub name_of : ℕ → Text → Result (Option Text)
  pub text_record : ℕ → Text → Text → Result (Option Text)

pub record EnsResolution : Type 0 where
  pub address : Option Text
  pub display_name : Text
  pub was_ens_name : Bool
  pub primary_name : Option Text

-- What a name resolves to, and what an address does.
abbrev pub forward : Text → Option Text → EnsResolution
forward name address = record {
  address = address;
  display_name = name;
  was_ens_name = true;
  primary_name = none;
}

abbrev pub reverse : Text → Option Text → EnsResolution
reverse address name = record {
  address = some address;
  display_name = or_else name address;
  was_ens_name = false;
  primary_name = name;
}

abbrev pub unresolved : Text → EnsResolution
unresolved input = record {
  address = none;
  display_name = input;
  was_ens_name = false;
  primary_name = none;
}

unfoldable pub is_ens_name : Text → Bool
unfolding is_evm_address includes
is_ens_name input = not (is_evm_address input) && includes (codes ".") input

module _ (ens : EnsClient) (vars : Variables) where
  -- A lookup whose error counts as no answer.
  abbrev pub lookup : (ℕ → Result (Option Text)) → Action (Option Text)
  lookup ask = catch (call ask) (λ e. pure none)

  -- `resolveENS(input)`, trimmed.
  unfoldable pub resolve_trimmed : Text → Action EnsResolution
  resolve_trimmed name =
      if is_ens_name name
      then (lookup (λ t. ens.address_record t name) >>= λ address. pure (forward name address))
      else if is_evm_address name
      then (lookup (λ t. ens.name_of t name) >>= λ found. pure (reverse name found))
      else pure (unresolved name)

  unfoldable pub resolve_ens : Text → Action EnsResolution
  resolve_ens input = resolve_trimmed (trim input)

  -- `getAgentENSName()`.
  unfoldable pub get_agent_ens_name : Action (Option Text)
  get_agent_ens_name =
      let addr = text_variable vars "EVM_APP_WALLET_ADDRESS" in
      if is_empty addr || not (is_evm_address addr)
      then pure none
      else lookup (λ t. ens.name_of t addr)

  -- `getAgentTextRecord(ensName, key)`.
  unfoldable pub get_agent_text_record : Text → Text → Action (Option Text)
  get_agent_text_record ens_name key = lookup (λ t. ens.text_record t ens_name key)
