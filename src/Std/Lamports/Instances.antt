-- ===== src/Std/Lamports/Instances.antt =====
-- A system program that only moves lamports.
use axelar_amplifier_solana.Std.Lamports.{Balances, System, SystemLaws, with_balance}
use axelar_amplifier_solana.Prelude.{
  Option, arith, if◌then◌else◌, leb, ltb, none, some, ℕ, ◌*◌, ◌+◌, ◌-◌,
}

abbrev pub plain_transfer : Balances → ℕ → ℕ → ℕ → Option Balances
plain_transfer balances from to amount =
    if ltb (balances from) amount
    then none
    else (let taken = with_balance balances from (balances from - amount) in
        some (with_balance taken to (taken to + amount)))

abbrev pub plain_system : System
plain_system = record {
  create_account =
      λ balances payer account space. plain_transfer balances payer account (space * 2);
  transfer = plain_transfer;
  is_exempt = λ balance space. leb (space * 2) balance;
}

pub plain_system-SystemLaws : SystemLaws plain_system
plain_system-SystemLaws = record {
  transfer_moves = λ balances balances' from to amount apart h. ground arith;
}
