-- ===== src/Std/Lamports.antt =====
-- The lamports of the accounts: the system program and the rent, which are parameters, and the macro
-- `transfer_lamports_anchor!` of crates/solana-axelar-std/src/program_utils.rs.
-- The lamports of every account.
pub mod Instances
use axelar_amplifier_solana.Prelude.{
  Bool, Option, Result, arithmetic_overflow, if◌then◌else◌, insufficient_funds, ltb, not, ok, ok_or,
  program, require, some, ℕ, ◌+◌, ◌==◌, ◌>>=◌, ◌>>◌, ◌≡◌, ◌≢◌,
}
use axelar_amplifier_solana.Std.Anchor.{u64_checked_add, u64_checked_sub}

abbrev pub Balances : Type 0
Balances = ℕ → ℕ

abbrev pub with_balance : Balances → ℕ → ℕ → Balances
with_balance balances k v a = if a == k then v else balances a

-- The system program and the rent, which the program calls: `create_account` is given the payer, the
-- new account and its space, `transfer` the sender, the receiver and the amount. Where such a call
-- fails the runtime ends the transaction.
pub record System : Type 0 where
  pub create_account : Balances → ℕ → ℕ → ℕ → Option Balances
  pub transfer : Balances → ℕ → ℕ → ℕ → Option Balances
  pub is_exempt : ℕ → ℕ → Bool

-- A transfer between two accounts takes the amount from the one and gives it to the other.
pub record SystemLaws (system : System) : Type 0 where
  pub transfer_moves :
      (balances balances' : Balances) (from to amount : ℕ)
      → from ≢ to
      → system.transfer balances from to amount ≡ some balances'
      → (balances' from + amount ≡ balances from)
        × (balances' to ≡ balances to + amount)
        × ((a : ℕ) → a ≢ from → a ≢ to → balances' a ≡ balances a)

-- `transfer_lamports_anchor!` (crates/solana-axelar-std/src/program_utils.rs)
abbrev pub transfer_lamports : {E : Type 0} → Balances → ℕ → ℕ → ℕ → Result E Balances
transfer_lamports balances from to amount = do
  require (not (ltb (balances from) amount)) (program insufficient_funds)
  rest ← ok_or (u64_checked_sub (balances from) amount) (program arithmetic_overflow)
  let taken = with_balance balances from rest
  sum ← ok_or (u64_checked_add (taken to) amount) (program arithmetic_overflow)
  ok (with_balance taken to sum)
