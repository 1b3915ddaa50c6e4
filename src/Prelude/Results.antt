-- ===== src/Prelude/Results.antt =====
-- Errors as values. `Error E` is what an Anchor instruction can end with: one of the program's own
-- errors, a constraint of the account macros, an error of the runtime, or a panic.
use mathlib.Core.Bool.{Bool, true, false}
use mathlib.Core.Option.{Option, none, some}
use mathlib.Core.Path.{◌≡◌, refl}

pub data AnchorError : Type 0 where
  account_not_initialized : AnchorError
  account_already_in_use : AnchorError
  constraint_seeds : AnchorError
  constraint_signer : AnchorError
  constraint_token : AnchorError
  constraint_address : AnchorError
  account_not_signer : AnchorError

pub data ProgramError : Type 0 where
  arithmetic_overflow : ProgramError
  invalid_instruction_data : ProgramError
  invalid_argument : ProgramError
  insufficient_funds : ProgramError
  missing_required_signature : ProgramError
  invalid_account_owner : ProgramError
  invalid_account_data : ProgramError
  not_enough_account_keys : ProgramError

pub data Error (E : Type 0) : Type 0 where
  custom : E → Error E
  anchor : AnchorError → Error E
  program : ProgramError → Error E
  panicked : Error E

pub data Result (E A : Type 0) : Type 0 where
  ok : A → Result E A
  err : Error E → Result E A

-- `?` on an error returns it at once.
abbrev pub ◌>>=◌ : {E A B : Type 0} → Result E A → (A → Result E B) → Result E B

infixl 5 ◌>>=◌ ◌>>◌
err error >>= rest = err error
ok value >>= rest = rest value

abbrev pub ◌>>◌ : {E A B : Type 0} → Result E A → Result E B → Result E B
err error >> rest = err error
ok value >> rest = rest

-- `require!` and `constraint`: the rest runs only where the test holds.
abbrev pub require : {E : Type 0} → Bool → Error E → Result E (Unit {0})
require true e = ok tt
require false e = err e

-- `ok_or`.
abbrev pub ok_or : {E A : Type 0} → Option A → Error E → Result E A
ok_or (some a) e = ok a
ok_or none e = err e

-- A chain that gives a value gave one at its first step.
pub >>=-ok :
    {E A B : Type 0} (m : Result E A) (rest : A → Result E B) (b : B)
    → (m >>= rest) ≡ ok b
    → (a : A) × (m ≡ ok a) × (rest a ≡ ok b)
>>=-ok (ok a) rest b h = (a, refl, h)
>>=-ok (err e) rest b h = cc

pub ok_or-ok : {E A : Type 0} (o : Option A) (e : Error E) (a : A) → ok_or o e ≡ ok a → o ≡ some a
ok_or-ok (some x) e a h = cc
ok_or-ok none e a h = cc

pub ok_inj : {E A : Type 0} (a b : A) → ◌≡◌ {A = Result E A} (ok a) (ok b) → a ≡ b
ok_inj a b e = cc
