-- ===== src/Its/Flow/Tests.antt =====
-- Transfers that a flow slot counts, and the theorems applied to them.
use axelar_amplifier_solana.Its.Flow.{
  FlowState, abs_diff, add_flow, flow_epoch_with_timestamp, inbound, new_flow_state, outbound,
  reset_flow, track_token_flow, update_flow,
}
use axelar_amplifier_solana.Its.Flow.History.{
  IsAccurate, Tracked, Tracked-IsAccurate, Transfer, counted, created, limited, recent,
  track_token_flow-net_flow,
}
use axelar_amplifier_solana.Prelude.{[], none, ok, pos, refl, some, ◌+◌, ◌∷◌, ◌≡◌, ◌≤◌}

abbrev slot_0 : FlowState
slot_0 = record (new_flow_state none 0) { flow_limit = some 10 }

abbrev slot_1 : FlowState
slot_1 = record { flow_limit = some 10; flow_in = 8; flow_out = 0; epoch = 2 }

abbrev slot_2 : FlowState
slot_2 = record { flow_limit = some 10; flow_in = 8; flow_out = 9; epoch = 2 }

abbrev first : Transfer
first = record { epoch = 2; direction = inbound; amount = 8 }

counted_1 : track_token_flow slot_0 (pos 43200) 8 inbound ≡ ok slot_1
unfolding track_token_flow add_flow update_flow reset_flow flow_epoch_with_timestamp
counted_1 = refl

counted_2 : track_token_flow slot_1 (pos 50000) 9 outbound ≡ ok slot_2
unfolding track_token_flow add_flow update_flow reset_flow flow_epoch_with_timestamp
counted_2 = refl

after_first : Tracked slot_1 (first ∷ [])
after_first = counted (limited (created none) (some 10)) (pos 43200) 8 inbound refl counted_1

Tracked-IsAccurate_example : IsAccurate slot_1 (first ∷ [])
Tracked-IsAccurate_example = Tracked-IsAccurate after_first

track_token_flow-net_flow_example :
    (flow_epoch_with_timestamp (pos 50000) ≡ ok 2)
    × (9 ≤ 10)
    × (abs_diff (0 + recent 2 inbound (first ∷ [])) (9 + recent 2 outbound (first ∷ [])) ≤ 10)
track_token_flow-net_flow_example =
    track_token_flow-net_flow slot_1 slot_2 (first ∷ []) (pos 50000) 9 outbound 10 after_first refl
      counted_2
