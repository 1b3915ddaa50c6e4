-- ===== src/Its/Flow/History.antt =====
-- The flow slot against the transfers that it has counted
-- (programs/solana-axelar-its/src/state/flow_state.rs).
use axelar_amplifier_solana.Its.Flow.{
  FlowDirection, FlowState, abs_diff, add_flow, flow_epoch_with_timestamp, inbound, new_flow_state,
  outbound, reset_flow, track_token_flow, update_flow,
}
use axelar_amplifier_solana.Prelude.{
  false, ==_refl, Bool-cases, ==_iff, inl, inr, refl, sym, ◌≢◌, ◌==◌, if◌then◌else◌, List, Option,
  [], arith, ok, some, ℕ, ℤ, ◌+◌, ◌∷◌, ◌≡◌, ◌≤◌,
}

pub record Transfer : Type 0 where
  pub epoch : ℕ
  pub direction : FlowDirection
  pub amount : ℕ

abbrev pub amount_in : FlowDirection → FlowDirection → ℕ → ℕ
amount_in inbound inbound amount = amount
amount_in outbound outbound amount = amount
amount_in _ _ amount = 0

-- What the latest transfers moved in a direction, as far back as they are of the given epoch; the
-- last transfer comes first.
unfoldable pub recent : ℕ → FlowDirection → List Transfer → ℕ
recent epoch direction [] = 0
recent epoch direction (t ∷ transfers) =
    let rest = recent epoch direction transfers in
    if t.epoch == epoch then amount_in direction t.direction t.amount + rest else 0

-- A slot, and the transfers counted since it was created; the limit can be set at any time.
pub data Tracked : FlowState → List Transfer → Type 0 where
  created : (flow_limit : Option ℕ) → Tracked (new_flow_state flow_limit 0) []
  limited :
      {s : FlowState} {transfers : List Transfer}
      → Tracked s transfers
      → (flow_limit : Option ℕ) → Tracked (record s { flow_limit = flow_limit }) transfers
  counted :
      {s s' : FlowState} {transfers : List Transfer} {limit : ℕ}
      → Tracked s transfers
      → (now : ℤ) (amount : ℕ) (direction : FlowDirection) → s.flow_limit ≡ some limit
      → track_token_flow s now amount direction ≡ ok s'
      → Tracked s'
          ((record { epoch = s'.epoch; direction = direction; amount = amount }) ∷ transfers)

-- A transfer that is counted.
pub record Counted (s : FlowState) (now : ℤ) (amount : ℕ) (direction : FlowDirection) (limit : ℕ)
    (s' : FlowState) : Type 0 where
  pub in_epoch : flow_epoch_with_timestamp now ≡ ok (s'.epoch)
  pub limit_same : s'.flow_limit ≡ s.flow_limit
  pub within : amount ≤ limit
  pub net_within : abs_diff s'.flow_in s'.flow_out ≤ limit
  pub in_added : s'.flow_in ≡ amount_in inbound direction amount + (reset_flow s s'.epoch).flow_in
  pub out_added :
      s'.flow_out ≡ amount_in outbound direction amount + (reset_flow s s'.epoch).flow_out

track_token_flow_sound :
    (s s' : FlowState) (now : ℤ) (amount : ℕ) (direction : FlowDirection) (limit : ℕ)
    → s.flow_limit ≡ some limit
    → track_token_flow s now amount direction ≡ ok s'
    → Counted s now amount direction limit s'
unfolding track_token_flow add_flow update_flow reset_flow flow_epoch_with_timestamp
track_token_flow_sound s s' now amount inbound limit l h = ground arith
track_token_flow_sound s s' now amount outbound limit l h = ground arith

-- What the slot holds is what the latest transfers of its epoch moved.
pub record IsAccurate (s : FlowState) (transfers : List Transfer) : Type 0 where
  pub in_accurate : s.flow_in ≡ recent s.epoch inbound transfers
  pub out_accurate : s.flow_out ≡ recent s.epoch outbound transfers
  pub others : (epoch : ℕ) (d : FlowDirection) → epoch ≢ s.epoch → recent epoch d transfers ≡ 0

recent_none : (e : ℕ) (d : FlowDirection) → recent e d [] ≡ 0
unfolding recent
recent_none e d = refl

recent_here :
    (e : ℕ) (d direction : FlowDirection) (amount : ℕ) (transfers : List Transfer)
    → recent e d ((record { epoch = e; direction = direction; amount = amount }) ∷ transfers)
      ≡ amount_in d direction amount + recent e d transfers
unfolding recent
recent_here e d direction amount transfers = rw (==_refl e) refl

recent_elsewhere :
    (e e' : ℕ) (d direction : FlowDirection) (amount : ℕ) (transfers : List Transfer)
    → e' ≢ e
    → recent e' d ((record { epoch = e; direction = direction; amount = amount }) ∷ transfers) ≡ 0
unfolding recent
recent_elsewhere e e' d direction amount transfers apart = ground arith

ne_of_false : (a b : ℕ) → (a == b) ≡ false → a ≢ b
ne_of_false a b h e = ground arith

reset-IsAccurate :
    (s : FlowState) (e : ℕ) (transfers : List Transfer)
    → IsAccurate s transfers
    → ((reset_flow s e).flow_in ≡ recent e inbound transfers)
      × ((reset_flow s e).flow_out ≡ recent e outbound transfers)
unfolding reset_flow
reset-IsAccurate s e transfers h = elim (Bool-cases (s.epoch == e)) [
  | inl same ↦
      let at : s.epoch ≡ e = (==_iff s.epoch e).0 same in
      rw (same, ← at) (h.in_accurate, h.out_accurate)
  | inr other ↦
      let apart : e ≢ s.epoch = λ p. ne_of_false s.epoch e other (sym p) in
      rw other (sym (h.others e inbound apart), sym (h.others e outbound apart))
]

-- However a slot came about, its two flows are what the transfers counted in its current epoch moved
-- in and out since the epoch began.
pub Tracked-IsAccurate :
    {s : FlowState} {transfers : List Transfer} → Tracked s transfers → IsAccurate s transfers
Tracked-IsAccurate (created flow_limit) = record {
  in_accurate = sym (recent_none 0 inbound);
  out_accurate = sym (recent_none 0 outbound);
  others = λ epoch d apart. recent_none epoch d;
}
Tracked-IsAccurate (limited t flow_limit) =
    let h = Tracked-IsAccurate t in
    record { in_accurate = h.in_accurate; out_accurate = h.out_accurate; others = h.others }
Tracked-IsAccurate (counted {s} {s'} {transfers} {limit} t now amount direction l e) =
    let h = Tracked-IsAccurate t in
    let c = track_token_flow_sound s s' now amount direction limit l e in
    let (before_in, before_out) = reset-IsAccurate s s'.epoch transfers h in
    record {
      in_accurate =
          rw (recent_here s'.epoch inbound direction amount transfers, c.in_added, before_in) refl;
      out_accurate =
          rw (recent_here s'.epoch outbound direction amount transfers, c.out_added, before_out)
            refl;
      others = λ epoch d apart. recent_elsewhere s'.epoch epoch d direction amount transfers apart;
    }

-- A transfer is counted only if it and the net flow of the current epoch, with it, stay within the
-- limit: the transfers of the epoch move in and out amounts that differ by at most the limit.
pub track_token_flow-net_flow :
    (s s' : FlowState) (transfers : List Transfer) (now : ℤ) (amount : ℕ)
    (direction : FlowDirection) (limit : ℕ)
    → Tracked s transfers
    → s.flow_limit ≡ some limit
    → track_token_flow s now amount direction ≡ ok s'
    → (flow_epoch_with_timestamp now ≡ ok (s'.epoch))
      × (amount ≤ limit)
      × (abs_diff
            (amount_in inbound direction amount + recent s'.epoch inbound transfers)
            (amount_in outbound direction amount + recent s'.epoch outbound transfers)
          ≤ limit)
track_token_flow-net_flow s s' transfers now amount direction limit t l e =
    let c = track_token_flow_sound s s' now amount direction limit l e in
    let (before_in, before_out) = reset-IsAccurate s s'.epoch transfers (Tracked-IsAccurate t) in
    (c.in_epoch, c.within, rw (← before_in, ← before_out, ← c.in_added, ← c.out_added) c.net_within)
