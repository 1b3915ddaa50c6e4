-- ===== src/Gas/Tests.antt =====
-- A run of the gas service over a concrete system, and the theorems applied to it.
use axelar_amplifier_solana.Gas.{
  GasResult, OperatorArguments, SenderAccounts, Store, collect_native_fees, gas_collected, pay_gas,
  treasury_seeds,
}
use axelar_amplifier_solana.Gas.Accounting.{
  HasTreasury, Run, Run-lamports, collecting, here, paid, paying, next, withdrawn,
}
use axelar_amplifier_solana.Operators.{OperatorAccount, operator_seeds}
use axelar_amplifier_solana.Std.Instances.{plain_runtime}
use axelar_amplifier_solana.Prelude.{
  ◌==◌, if◌then◌else◌, Map, [], arith, err, none, ok, refl, true, update, ℕ, ◌+◌, ◌≡◌, ◌≢◌,
}
use axelar_amplifier_solana.Gas.Effect.{Withdrawal, collect_native_fees_sound}
use axelar_amplifier_solana.Std.Lamports.Instances.{plain_system, plain_system-SystemLaws}

abbrev treasury_address : ℕ
treasury_address = (plain_runtime.find_program_address treasury_seeds 1).0

abbrev operator_address : ℕ
operator_address = (plain_runtime.find_program_address (operator_seeds 5) 2).0

abbrev operators : Map OperatorAccount
operators = update (λ a. none) operator_address (record { bump = 0 })

abbrev store_0 : Store
store_0 = record {
  lamports = λ a. if a == treasury_address then 20 else 100;
  treasuries = update (λ a. none) treasury_address (record { bump = 0 });
  events = [];
}

abbrev sender : SenderAccounts
sender = record { sender = 3; sender_is_signer = true; treasury = treasury_address }

abbrev operator_arguments : OperatorArguments
operator_arguments = record {
  operator = 5;
  operator_is_signer = true;
  operator_pda = operator_address;
  treasury = treasury_address;
  receiver = 4;
}

abbrev result : GasResult Store → Store
result (ok st) = st
result (err e) = store_0

abbrev store_1 : Store
store_1 = result (pay_gas plain_runtime plain_system 1 2 operators store_0 sender [] [] 0 9 3)

abbrev store_2 : Store
store_2 =
    result
      (collect_native_fees plain_runtime plain_system 1 2 operators store_1 operator_arguments 6)

collected :
    collect_native_fees plain_runtime plain_system 1 2 operators store_1 operator_arguments 6
    ≡ ok store_2
unfolding collect_native_fees pay_gas
collected = refl

paid_1 : pay_gas plain_runtime plain_system 1 2 operators store_0 sender [] [] 0 9 3 ≡ ok store_1
unfolding pay_gas
paid_1 = refl

apart_4 : 4 ≢ treasury_address
apart_4 = omega arith

apart_3 : 3 ≢ treasury_address
apart_3 = omega arith

ran_2 : Run plain_runtime plain_system 1 2 store_0 store_2
ran_2 =
    next (next here (paying operators sender [] [] 0 9 3 apart_3 paid_1))
      (collecting operators operator_arguments 6 apart_4 collected)

has_treasury : HasTreasury plain_runtime plain_system 1 2 store_0 treasury_address
has_treasury k t e = ground arith

Run-lamports_example :
    store_2.lamports treasury_address + withdrawn store_2.events + paid store_0.events
    ≡ store_0.lamports treasury_address + withdrawn store_0.events + paid store_2.events
Run-lamports_example =
    Run-lamports plain_runtime plain_system 1 2 plain_system-SystemLaws treasury_address
      has_treasury ran_2

collect_native_fees_sound_example :
    Withdrawal plain_runtime plain_system 1 2 operators store_1 operator_arguments 6 store_2
      (gas_collected 4 6)
collect_native_fees_sound_example =
    collect_native_fees_sound plain_runtime plain_system 1 2 operators store_1 store_2
      operator_arguments 6 apart_4 collected
