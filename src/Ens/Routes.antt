-- ===== src/Ens/Routes.antt =====
-- app/api/ens/resolve/route.ts, app/api/ens/agent/route.ts and app/api/agent/route.ts: `GET` of
-- each. Viem's client, which the first two use, is a parameter. The fields of the answers that are
-- the same in every answer are left out.
use eps_dapp.Base.{
  ℕ, Bool, true, false, not, ◌||◌, Option, none, some, [], ◌++◌, or_else, is_empty, ltb, length,
  if◌then◌else◌, Text, codes, text_eq, includes, trim, to_lower,
}
use eps_dapp.Variables.{Variables}
use eps_dapp.Effects.{Action, Result, Error, ◌>>=◌, pure, call, catch}
use eps_dapp.Ens.Resolver.{EnsClient, get_agent_ens_name, get_agent_text_record}

pub record EnsViem : Type 0 where
  -- `getEnsAddress` and `getEnsText`
  pub ens_address : ℕ → Text → Result (Option Text)
  pub ens_text : ℕ → Text → Text → Result (Option Text)

pub data ResolveResponse : Type 0 where
  too_short not_a_name not_registered : ResolveResponse
  resolved : Text → Text → ResolveResponse
  resolution_failed : Error → ResolveResponse

-- `null` and the empty text are falsy.
abbrev pub found_address : Text → Option Text → ResolveResponse
found_address name none = not_registered
found_address name (some address) =
    if is_empty address then not_registered else resolved name address

-- The queries `name` and `q`, `null` where they are missing.
abbrev pub asked_name : Option Text → Option Text → Text
asked_name (some name) q = to_lower (trim name)
asked_name none q = to_lower (trim (or_else q []))

module _ (viem : EnsViem) where
  unfoldable pub resolve_name : Text → Action ResolveResponse
  resolve_name name =
      catch (call (λ t. viem.ens_address t name) >>= λ address. pure (found_address name address))
        (λ e. pure (resolution_failed e))

  unfoldable pub get_ens_resolve : Option Text → Option Text → Action ResolveResponse
  unfolding includes
  get_ens_resolve name q =
      let asked = asked_name name q in
      if is_empty asked || ltb (length asked) 3
      then pure too_short
      else if not (includes (codes ".") asked)
      then pure not_a_name
      else resolve_name asked

pub record AgentIdentity : Type 0 where
  pub ens_name : Option Text
  pub agent_address : Option Text
  pub has_identity : Bool
  pub is_ensip26 : Bool
  pub avatar : Option Text
  pub url : Option Text
  pub description : Option Text
  pub agent_type : Option Text
  pub agent_version : Option Text

abbrev pub agent_ens : Text
agent_ens = codes "youhavebeenserved.eth"

abbrev pub agent_address_constant : Text
agent_address_constant = codes "0xd116a147a95f406a4a4f589c44d588cfe58ef6e0"

abbrev pub lower_option : Option Text → Option Text
lower_option none = none
lower_option (some address) = some (to_lower address)

-- `if (value) record.key = value`.
abbrev pub kept : Option Text → Option Text
kept none = none
kept (some value) = if is_empty value then none else some value

abbrev pub is_present : Option Text → Bool
is_present none = false
is_present (some value) = true

abbrev pub without_identity : Option Text → AgentIdentity
without_identity address = record {
  ens_name = none;
  agent_address = address;
  has_identity = false;
  is_ensip26 = false;
  avatar = none;
  url = none;
  description = none;
  agent_type = none;
  agent_version = none;
}

module _ (viem : EnsViem) where
  -- A text record of the agent's name, `null` on an error.
  abbrev pub agent_text : Text → Action (Option Text)
  agent_text key = catch (call (λ t. viem.ens_text t agent_ens key)) (λ e. pure none)

  unfoldable pub identified : Option Text → Action AgentIdentity
  identified address = do
    avatar ← agent_text (codes "avatar")
    url ← agent_text (codes "url")
    description ← agent_text (codes "description")
    agent_type ← agent_text (codes "agentType")
    agent_version ← agent_text (codes "agentVersion")
    pure (record {
      ens_name = some agent_ens;
      agent_address = address;
      has_identity = true;
      is_ensip26 = is_present (kept agent_type) || is_present (kept agent_version);
      avatar = kept avatar;
      url = kept url;
      description = kept description;
      agent_type = kept agent_type;
      agent_version = kept agent_version;
    })

  abbrev pub is_agent : Option Text → Bool
  is_agent address = text_eq (or_else (lower_option address) []) (to_lower agent_address_constant)

  unfoldable pub get_ens_agent : Action AgentIdentity
  unfolding text_eq to_lower
  get_ens_agent = do
    address ←
        catch (call (λ t. viem.ens_address t agent_ens) >>= λ found. pure (lower_option found))
          (λ e. pure (some agent_address_constant))
    if is_agent address then identified address else pure (without_identity address)

pub record AgentCard : Type 0 where
  pub ens : Option Text
  pub address : Option Text
  pub did : Option Text
  pub hcs_topic_id : Option Text
  pub hts_token_id : Option Text

abbrev pub did_of : Text → Text
did_of name = codes "did:ens:" ++ name

module _ (ens : EnsClient) (vars : Variables) where
  -- The identifier: the text record's, if it is not empty.
  unfoldable pub did_for : Option Text → Action (Option Text)
  did_for none = pure none
  did_for (some name) =
      if is_empty name
      then pure none
      else (get_agent_text_record ens vars name (codes "agent.did") >>= λ on_chain.
          pure (some (or_else (kept on_chain) (did_of name))))

  unfoldable pub get_agent : Action AgentCard
  get_agent = do
    name ← get_agent_ens_name ens vars
    did ← did_for name
    pure (record {
      ens = name;
      address = vars (codes "EVM_APP_WALLET_ADDRESS");
      did = did;
      hcs_topic_id = vars (codes "HEDERA_HCS_TOPIC_ID");
      hts_token_id = vars (codes "HEDERA_NFT_TOKEN_ID");
    })
