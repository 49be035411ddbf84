-- ===== src/Ens/Laws.antt =====
-- lib/ens/ENSResolver.ts: what `resolveENS` answers.
use eps_dapp.Base.{◌≡◌, true, false, ◌⊎◌, inl, inr, Option, none, arith, Text, trim, Bool-cases}
use eps_dapp.Chains.Address.{is_evm_address}
use eps_dapp.Effects.{World, Result, ok, crashed, Result-cases}
use eps_dapp.Variables.{Variables}
use eps_dapp.Ens.Resolver.{
  EnsClient, EnsResolution, forward, reverse, unresolved, is_ens_name, resolve_trimmed, resolve_ens,
}

-- What the answer to a trimmed input is: an address stands for itself, under its name if it has one; a name
-- stands for the address that was found, if any; other input stands for nothing.
pub data ResolvesTo (input : Text) : EnsResolution → Type 0 where
  as_address :
      is_evm_address input ≡ true → (name : Option Text) → ResolvesTo input (reverse input name)
  as_name :
      is_ens_name input ≡ true → (address : Option Text) → ResolvesTo input (forward input address)
  as_nothing :
      is_ens_name input ≡ false → is_evm_address input ≡ false → ResolvesTo input (unresolved input)

module _ (ens : EnsClient) (vars : Variables) (w : World) where
  -- What a call answers to a trimmed input, unless the process dies.
  abbrev Answered : Text → Result EnsResolution → Type 0
  Answered input answer =
      (answer ≡ crashed) ⊎ ((r : EnsResolution) × (answer ≡ ok r) × ResolvesTo input r)

  resolve_trimmed-Answered : (input : Text) → Answered input (resolve_trimmed ens vars input w).0
  unfolding resolve_trimmed
  resolve_trimmed-Answered input = elim (Bool-cases (is_ens_name input)) [
    | inl e ↦ elim (Result-cases (ens.address_record w.tick input)) [
      | inl (address, h) ↦ inr (forward input address, ground (arith, e, h), as_name e address)
      | inr (inl (x, h)) ↦ inr (forward input none, ground (arith, e, h), as_name e none)
      | inr (inr h) ↦ inl (ground (arith, e, h))
    ]
    | inr e ↦ elim (Bool-cases (is_evm_address input)) [
      | inl k ↦ elim (Result-cases (ens.name_of w.tick input)) [
        | inl (name, h) ↦ inr (reverse input name, ground (arith, e, k, h), as_address k name)
        | inr (inl (x, h)) ↦ inr (reverse input none, ground (arith, e, k, h), as_address k none)
        | inr (inr h) ↦ inl (ground (arith, e, k, h))
      ]
      | inr k ↦ inr (unresolved input, ground (arith, e, k), as_nothing e k)
    ]
  ]

  -- `resolveENS` never throws: unless the process dies, it answers what the trimmed input resolves
  -- to.
  pub resolve_ens-ResolvesTo :
      (input : Text)
      → ((resolve_ens ens vars input w).0 ≡ crashed)
        ⊎ ((r : EnsResolution) × ((resolve_ens ens vars input w).0 ≡ ok r)
            × ResolvesTo (trim input) r)
  unfolding resolve_ens
  resolve_ens-ResolvesTo input = resolve_trimmed-Answered (trim input)
