-- ===== src/Its/Flow.antt =====
-- The flow slot of a token manager (programs/solana-axelar-its/src/state/flow_state.rs) and how a
-- transfer is counted in it (`track_token_flow` of the two `interchain_transfer.rs`).
pub mod History
mod Tests
use axelar_amplifier_solana.Std.Anchor.{u64_checked_add}
use axelar_amplifier_solana.Prelude.{
  ◌==◌, if◌then◌else◌, ltb, Option, Result, custom, is_none, none, not, ok, ok_or, require, some,
  u64_try_from, ℕ, ℤ, ◌*◌, ◌-◌, ◌/◌, ◌>>=◌, ◌>>◌,
}

-- errors.rs
pub data ItsError : Type 0 where
  paused : ItsError
  invalid_amount : ItsError
  invalid_argument : ItsError
  invalid_instruction_data : ItsError
  invalid_metaplex_data_account : ItsError
  minter_not_provided : ItsError
  minter_roles_not_provided : ItsError
  minter_roles_pda_bump_not_provided : ItsError
  operator_not_provided : ItsError
  operator_roles_pda_not_provided : ItsError
  invalid_account_data : ItsError
  untrusted_source_chain : ItsError
  untrusted_destination_chain : ItsError
  trusted_chain_already_set : ItsError
  trusted_chain_not_set : ItsError
  invalid_source_address : ItsError
  invalid_destination_chain : ItsError
  invalid_destination_address : ItsError
  invalid_destination_address_account : ItsError
  interchain_transfer_execute_pda_missing : ItsError
  zero_supply_token : ItsError
  token_manager_mint_extension_mismatch : ItsError
  caller_not_user_account : ItsError
  invalid_token_mint : ItsError
  token_mint_token_manager_missmatch : ItsError
  account_not_provided : ItsError
  inconsistent_source_id_and_pda_seeds : ItsError
  arithmetic_overflow : ItsError
  missing_required_signature : ItsError
  not_enough_account_keys : ItsError
  invalid_token_manager_type : ItsError
  serialization_error : ItsError
  invalid_destination_token_authority : ItsError
  missing_minter_role : ItsError
  missing_operator_role : ItsError
  missing_flow_limiter_role : ItsError
  flow_limit_exceeded : ItsError

abbrev pub ItsResult : Type 0 → Type 0
ItsResult = Result ItsError

-- `EPOCH_TIME`, six hours in seconds.
abbrev pub epoch_time : ℕ
epoch_time = 6 * 60 * 60

-- `FlowDirection::In` and `FlowDirection::Out`
pub data FlowDirection : Type 0 where
  inbound : FlowDirection
  outbound : FlowDirection

pub record FlowState : Type 0 where
  pub flow_limit : Option ℕ
  pub flow_in : ℕ
  pub flow_out : ℕ
  pub epoch : ℕ

-- `FlowState::new`
abbrev pub new_flow_state : Option ℕ → ℕ → FlowState
new_flow_state flow_limit epoch = record {
  flow_limit = flow_limit;
  flow_in = 0;
  flow_out = 0;
  epoch = epoch;
}

abbrev pub abs_diff : ℕ → ℕ → ℕ
abs_diff a b = if ltb a b then b - a else a - b

-- The new value of `to_add`.
unfoldable pub update_flow : ℕ → ℕ → ℕ → ℕ → ItsResult ℕ
update_flow flow_limit to_add to_compare amount = do
  require (not (ltb flow_limit amount)) (custom flow_limit_exceeded)
  new_flow ← ok_or (u64_checked_add to_add amount) (custom arithmetic_overflow)
  let net_flow = abs_diff new_flow to_compare
  require (not (ltb flow_limit net_flow)) (custom flow_limit_exceeded)
  ok new_flow

abbrev add_limited_flow : ℕ → FlowState → ℕ → FlowDirection → ItsResult FlowState
add_limited_flow flow_limit s amount inbound = do
  new_flow ← update_flow flow_limit s.flow_in s.flow_out amount
  ok (record s { flow_in = new_flow })
add_limited_flow flow_limit s amount outbound = do
  new_flow ← update_flow flow_limit s.flow_out s.flow_in amount
  ok (record s { flow_out = new_flow })

abbrev by_limit : Option ℕ → FlowState → ℕ → FlowDirection → ItsResult FlowState
by_limit none s amount direction = ok s
by_limit (some flow_limit) s amount direction = add_limited_flow flow_limit s amount direction

unfoldable pub add_flow : FlowState → ℕ → FlowDirection → ItsResult FlowState
add_flow s amount direction = by_limit s.flow_limit s amount direction

unfoldable pub flow_epoch_with_timestamp : ℤ → ItsResult ℕ
flow_epoch_with_timestamp timestamp = do
  unix_timestamp ← ok_or (u64_try_from timestamp) (custom arithmetic_overflow)
  ok (unix_timestamp / epoch_time)

-- The flows start again at zero when the epoch has changed.
unfoldable pub reset_flow : FlowState → ℕ → FlowState
reset_flow s current_epoch =
    if s.epoch == current_epoch
    then s
    else record s { flow_in = 0; flow_out = 0; epoch = current_epoch }

abbrev track_limited : FlowState → ℤ → ℕ → FlowDirection → ItsResult FlowState
track_limited s now amount direction = do
  current_epoch ← flow_epoch_with_timestamp now
  add_flow (reset_flow s current_epoch) amount direction

unfoldable pub track_token_flow : FlowState → ℤ → ℕ → FlowDirection → ItsResult FlowState
track_token_flow s now amount direction =
    if is_none s.flow_limit then ok s else track_limited s now amount direction
