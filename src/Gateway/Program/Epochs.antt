-- ===== src/Gateway/Program/Epochs.antt =====
-- The epochs of the verifier sets: one configuration, and a tracker for each epoch up to the current
-- one at most.
use axelar_amplifier_solana.Std.U256.{BnumLaws, IsU256, U256, ge, to_ℕ, checked_sub}
use axelar_amplifier_solana.Gateway.Env.{Env}
use axelar_amplifier_solana.Gateway.Program.{empty_store}
use axelar_amplifier_solana.Gateway.State.{GatewayConfig, VerifierSetTracker, assert_valid_epoch}
use axelar_amplifier_solana.Prelude.{
  ap, some_inj, subst, sym, update-cases, update_self, ◌∙◌, Bool-cases, Map, arith, inl, inr, ltb,
  ltb→lt, none, none_ne_some, ok, some, update, ℕ, ◌+◌, ◌<◌, ◌↔◌, ◌≡◌, ◌≢◌, ◌≤◌,
}

-- `assert_valid_epoch` accepts exactly the epochs that are not ahead of the current one, and behind it
-- by less than the retention.
pub assert_valid_epoch_iff :
    (env : Env) (config : GatewayConfig) (epoch : U256)
    → BnumLaws env.bnum
    → IsU256 config.current_epoch
    → IsU256 epoch
    → (assert_valid_epoch env config epoch ≡ ok tt) ↔ (
        (to_ℕ epoch ≤ to_ℕ config.current_epoch)
        × (to_ℕ config.current_epoch < to_ℕ epoch + to_ℕ config.previous_verifier_set_retention))
unfolding assert_valid_epoch checked_sub ge
assert_valid_epoch_iff env config epoch laws hc he =
    let current = to_ℕ config.current_epoch in
    elim (Bool-cases (ltb current (to_ℕ epoch))) [
      | inl ahead ↦
          let e = laws.sub_none config.current_epoch epoch hc he (ltb→lt _ _ ahead) in ground arith
      | inr behind ↦
          let le : to_ℕ epoch ≤ current = ground arith in
          let (z, e, hz, value) = laws.sub_some config.current_epoch epoch hc he le in
          let order = laws.cmp_lem z config.previous_verifier_set_retention in ground arith
    ]

-- There is at most one configuration, at its own address `r`; the trackers are none before there is
-- a configuration, none is ahead of the current epoch, and no two have one epoch.
pub record Epochs (r : ℕ) (config : Map GatewayConfig) (trackers : Map VerifierSetTracker)
    : Type 0 where
  pub config_at : (a : ℕ) (c : GatewayConfig) → config a ≡ some c → a ≡ r
  pub no_config : config r ≡ none → (a : ℕ) (t : VerifierSetTracker) → trackers a ≢ some t
  pub current_word : (c : GatewayConfig) → config r ≡ some c → IsU256 c.current_epoch
  pub epoch_word : (a : ℕ) (t : VerifierSetTracker) → trackers a ≡ some t → IsU256 t.epoch
  pub bounded :
      (c : GatewayConfig) (a : ℕ) (t : VerifierSetTracker)
      → config r ≡ some c
      → trackers a ≡ some t
      → to_ℕ t.epoch ≤ to_ℕ c.current_epoch
  pub distinct :
      (a b : ℕ) (t u : VerifierSetTracker)
      → trackers a ≡ some t
      → trackers b ≡ some u
      → to_ℕ t.epoch ≡ to_ℕ u.epoch
      → a ≡ b

pub Epochs-empty : (r : ℕ) → Epochs r empty_store.config empty_store.trackers
Epochs-empty r = record {
  config_at = λ a c e. absurd (none_ne_some c e);
  no_config = λ e a t f. none_ne_some t f;
  current_word = λ c e. absurd (none_ne_some c e);
  epoch_word = λ a t e. absurd (none_ne_some t e);
  bounded = λ c a t e f. absurd (none_ne_some c e);
  distinct = λ a b t u e f g. absurd (none_ne_some t e);
}

module _ (r : ℕ) (config : Map GatewayConfig) (trackers : Map VerifierSetTracker) where
  -- What is found at the address of the configuration after it was written there.
  written_at : (a : ℕ) (c' c'' : GatewayConfig) → a ≡ r → update config a c' r ≡ some c'' → c' ≡ c''
  written_at a c' c'' at_r e = some_inj c' c'' (sym (rw (← at_r) (update_self config a c')) ∙ e)

  -- The part of the invariant that every write of a configuration keeps.
  config_at_update :
      (a : ℕ) (c' : GatewayConfig)
      → a ≡ r
      → ((b : ℕ) (c : GatewayConfig) → config b ≡ some c → b ≡ r)
      → (b : ℕ) (c'' : GatewayConfig) → update config a c' b ≡ some c''
      → b ≡ r
  config_at_update a c' at_r before b c'' e = elim (update-cases config a b c' e) [
    | inl (same, written) ↦ same ∙ at_r
    | inr old ↦ before b c'' old
  ]

  no_config_update : (a : ℕ) (c' : GatewayConfig) → a ≡ r → ¬ (update config a c' r ≡ none)
  no_config_update a c' at_r e = none_ne_some c' (sym e ∙ rw (← at_r) (update_self config a c'))

  -- A configuration is replaced by one with the same epoch.
  pub Epochs-config :
      (a : ℕ) (c c' : GatewayConfig)
      → Epochs r config trackers
      → config a ≡ some c
      → c'.current_epoch ≡ c.current_epoch
      → Epochs r (update config a c') trackers
  Epochs-config a c c' h at_a same =
      let at_r : a ≡ r = h.config_at a c at_a in
      let found : config r ≡ some c = rw (← at_r) at_a in
      record {
        config_at = config_at_update a c' at_r h.config_at;
        no_config = λ e. absurd (no_config_update a c' at_r e);
        current_word = λ c'' e.
            subst (λ (x : GatewayConfig). IsU256 x.current_epoch) (written_at a c' c'' at_r e)
              (rw same (h.current_word c found));
        epoch_word = h.epoch_word;
        bounded = λ c'' b t e f.
            subst (λ (x : GatewayConfig). to_ℕ t.epoch ≤ to_ℕ x.current_epoch)
              (written_at a c' c'' at_r e) (rw same (h.bounded c b t found f));
        distinct = h.distinct;
      }

  -- A write of the configuration that comes with a tracker for its epoch, where all trackers so far
  -- are behind it.
  pub Epochs-tracker :
      (a n : ℕ) (c' : GatewayConfig) (t' : VerifierSetTracker)
      → Epochs r config trackers
      → a ≡ r
      → ((b : ℕ) (t : VerifierSetTracker)
          → trackers b ≡ some t
          → to_ℕ t.epoch < to_ℕ c'.current_epoch)
      → IsU256 c'.current_epoch
      → t'.epoch ≡ c'.current_epoch
      → Epochs r (update config a c') (update trackers n t')
  Epochs-tracker a n c' t' h at_r behind word same = record {
    config_at = config_at_update a c' at_r h.config_at;
    no_config = λ e. absurd (no_config_update a c' at_r e);
    current_word = λ c'' e.
        subst (λ (x : GatewayConfig). IsU256 x.current_epoch) (written_at a c' c'' at_r e) word;
    epoch_word = λ b t e. elim (update-cases trackers n b t' e) [
      | inl (at_n, written) ↦
          subst (λ (x : VerifierSetTracker). IsU256 x.epoch) written (rw same word)
      | inr old ↦ h.epoch_word b t old
    ];
    bounded = λ c'' b t e f.
        subst (λ (x : GatewayConfig). to_ℕ t.epoch ≤ to_ℕ x.current_epoch)
          (written_at a c' c'' at_r e) (at_most b t f);
    distinct = λ b b' t u e f g. elim (update-cases trackers n b t' e) [
      | inl (at_n, written) ↦ elim (update-cases trackers n b' t' f) [
        | inl (at_n', written') ↦ at_n ∙ sym at_n'
        | inr old' ↦
            let p : to_ℕ t.epoch ≡ to_ℕ c'.current_epoch =
              sym (ap epoch_of written) ∙ ap to_ℕ same in
            absurd (omega (arith, behind b' u old'))
      ]
      | inr old ↦ elim (update-cases trackers n b' t' f) [
        | inl (at_n', written') ↦
            let p : to_ℕ u.epoch ≡ to_ℕ c'.current_epoch =
              sym (ap epoch_of written') ∙ ap to_ℕ same in
            absurd (omega (arith, behind b t old))
        | inr old' ↦ h.distinct b b' t u old old' g
      ]
    ];
  }
    where
      epoch_of : VerifierSetTracker → ℕ
      epoch_of t = to_ℕ t.epoch

      at_most :
          (b : ℕ) (t : VerifierSetTracker)
          → update trackers n t' b ≡ some t
          → to_ℕ t.epoch ≤ to_ℕ c'.current_epoch
      at_most b t f = elim (update-cases trackers n b t' f) [
        | inl (at_n, written) ↦
            let p : to_ℕ t.epoch ≡ to_ℕ c'.current_epoch =
              sym (ap epoch_of written) ∙ ap to_ℕ same in
            omega arith
        | inr old ↦ omega (arith, behind b t old)
      ]
