-- ===== src/Bridge/Frame.antt =====
-- What the handlers of the credit bridge leave alone: a withdrawal keeps the settings, and every
-- other handler keeps the records of the withdrawals.
use sysbreak_trust.Base.{
  ℕ, ◌+◌, ◌-◌, ◌*◌, ◌≤◌, ◌++◌, [], ◌∷◌, true, false, inl, inr, Option-cases, Result-cases,
  OnOk-apply, ◌<◌, Bool-cases, ltb, leb, u64_max, nanos_per_second, find, save, unwrap_or,
  number_key, text_key, ◌≡◌, refl, ◌≢◌, arith, ok, some, Text, OnOk, Map,
}
use mathlib.Core.Path.{subst}
use sysbreak_trust.Host.{Addr, Env, MessageInfo, Deps, Response}
use sysbreak_trust.Bridge.State.{Config, Storage, ExecuteMsg, WithdrawalRecord, day}
use sysbreak_trust.Bridge.Helpers.{reject_funds, assert_not_paused, window_loop}
use sysbreak_trust.Bridge.Treasury.{
  execute_deposit, execute_fund_treasury, execute_withdraw_treasury,
}
use sysbreak_trust.Bridge.Withdraw.{
  execute_withdraw, authorize, record_player, record_global, record_withdrawal, prune,
  withdrawal_messages,
}
use sysbreak_trust.Bridge.Admin.{
  execute_propose_oracle, execute_accept_oracle, execute_cancel_oracle_transfer,
  execute_update_rate, execute_update_fee, execute_update_limits, execute_pause, execute_unpause,
  execute_propose_owner, execute_accept_owner, execute_cancel_owner_transfer,
}
use sysbreak_trust.Bridge.Contract.{execute}

pub record SameSettings (s s' : Storage) : Type 0 where
  pub config : s'.config ≡ s.config
  pub pending_oracle : s'.pending_oracle ≡ s.pending_oracle
  pub pending_owner : s'.pending_owner ≡ s.pending_owner
  pub peak_balance : s'.peak_balance ≡ s.peak_balance

pub record SameBooks (s s' : Storage) : Type 0 where
  pub used_nonces : s'.used_nonces ≡ s.used_nonces
  pub player_withdrawals : s'.player_withdrawals ≡ s.player_withdrawals
  pub player_last_withdrawal : s'.player_last_withdrawal ≡ s.player_last_withdrawal
  pub global_withdrawals : s'.global_withdrawals ≡ s.global_withdrawals
  pub global_records : s'.global_withdrawal_records ≡ s.global_withdrawal_records
  pub global_wd_counter : s'.global_wd_counter ≡ s.global_wd_counter
  pub global_wd_oldest : s'.global_wd_oldest ≡ s.global_wd_oldest

-- Where the windows of a call at `now` begin.
abbrev pub cutoff_of : ℕ → ℕ
cutoff_of now = now - day * nanos_per_second

abbrev pub entry_of : ℕ → ℕ → WithdrawalRecord
entry_of credits now = record { amount_credits = credits; timestamp = now }

-- The global records after the new entry and the pruning, with the index of the oldest.
abbrev pub pruned_of : ℕ → ℕ → Storage → ℕ → ℕ → Map ℕ WithdrawalRecord × ℕ
pruned_of now credits s counter oldest =
    prune (cutoff_of now) (counter + 1) 10
      (save (counter + 1) (entry_of credits now) s.global_withdrawal_records) oldest

-- All that `record_withdrawal` writes.
pub record Recorded (env : Env) (player : Addr) (nonce : Text) (credits : ℕ) (s s' : Storage)
    : Type 0 where
  pub settings : SameSettings s s'
  pub late : day * nanos_per_second ≤ env.time
  pub used_nonces : s'.used_nonces ≡ save nonce true s.used_nonces
  pub player_withdrawals :
      s'.player_withdrawals
      ≡ save player
          ((window_loop
              (cutoff_of env.time)
              (unwrap_or [] (find player s.player_withdrawals))
              []
              0).0
            ++ (entry_of credits env.time ∷ []))
          s.player_withdrawals
  pub player_last_withdrawal :
      s'.player_last_withdrawal ≡ save player env.time s.player_last_withdrawal
  pub global_withdrawals : s'.global_withdrawals ≡ s.global_withdrawals
  pub counter : ℕ
  pub oldest : ℕ
  pub old_counter : s.global_wd_counter ≡ some counter
  pub old_oldest : s.global_wd_oldest ≡ some oldest
  pub new_counter : s'.global_wd_counter ≡ some (counter + 1)
  pub records : s'.global_withdrawal_records ≡ (pruned_of env.time credits s counter oldest).0
  pub new_oldest : s'.global_wd_oldest ≡ some (pruned_of env.time credits s counter oldest).1

module _ (env : Env) (info : MessageInfo) (nonce : Text) (credits : ℕ) (s : Storage) where
  pub record_withdrawal-Recorded :
      OnOk (Recorded env info.sender nonce credits s) (record_withdrawal env info nonce credits s)
  unfolding record_withdrawal record_player record_global
  record_withdrawal-Recorded = elim (Option-cases s.global_wd_counter) [
    | inl e ↦ ground arith
    | inr (c, e) ↦ elim (Option-cases s.global_wd_oldest) [
      | inl e' ↦ ground arith
      | inr (o, e') ↦ elim (Bool-cases (leb (day * nanos_per_second) env.time)) [
        | inl late ↦ elim (Bool-cases (leb (c + 1) u64_max)) [
          | inl fit ↦
              let in_time : ltb env.time (day * nanos_per_second) ≡ false = ground arith in
              simp (e, e', in_time, fit)
                (record {
                  settings = record {
                    config = refl;
                    pending_oracle = refl;
                    pending_owner = refl;
                    peak_balance = refl;
                  };
                  late = ground arith;
                  used_nonces = refl;
                  player_withdrawals = refl;
                  player_last_withdrawal = refl;
                  global_withdrawals = refl;
                  counter = c;
                  oldest = o;
                  old_counter = e;
                  old_oldest = e';
                  new_counter = refl;
                  records = refl;
                  new_oldest = refl;
                })
          | inr unfit ↦ ground arith
        ]
        | inr early ↦ ground arith
      ]
    ]
  ]

-- What a withdrawal that succeeds went through.
pub record Withdrawn (d : Deps) (env : Env) (info : MessageInfo) (nonce : Text) (credits tokens : ℕ)
    (signature : Text) (s s' : Storage) (r : Response) : Type 0 where
  pub config : Config
  pub fee : ℕ
  pub stored : s.config ≡ some config
  pub unpaid : info.funds ≡ []
  pub running : config.paused ≡ false
  pub credits_pos : 0 < credits
  pub tokens_pos : 0 < tokens
  pub authorized : authorize d env info config nonce credits tokens signature s ≡ ok fee
  pub recorded : Recorded env info.sender nonce credits s s'
  pub messages : r.messages ≡ withdrawal_messages config info.sender tokens fee

module _ (d : Deps) (env : Env) (info : MessageInfo) (nonce : Text) (credits tokens : ℕ)
    (signature : Text) (s s' : Storage) (r : Response) where
  pub execute_withdraw-Withdrawn :
      execute_withdraw d env info nonce credits tokens signature s ≡ ok (s', r)
      → Withdrawn d env info nonce credits tokens signature s s' r
  unfolding execute_withdraw reject_funds assert_not_paused
  execute_withdraw-Withdrawn h = elim (Option-cases s.config) [
    | inl e ↦ absurd (ground arith)
    | inr (c, e) ↦ elim (Result-cases (authorize d env info c nonce credits tokens signature s)) [
      | inl (fee, passed) ↦ elim (Result-cases (record_withdrawal env info nonce credits s)) [
        | inl (new, wrote) ↦ record {
          config = c;
          fee = fee;
          stored = e;
          unpaid = ground arith;
          running = ground arith;
          credits_pos = ground arith;
          tokens_pos = ground arith;
          authorized = passed;
          recorded =
              let same : new ≡ s' = ground arith in
              subst (Recorded env info.sender nonce credits s) same
                (OnOk-apply _ (record_withdrawal-Recorded env info nonce credits s) wrote);
          messages = ground arith;
        }
        | inr fails ↦ absurd (ground arith)
      ]
      | inr fails ↦ absurd (ground arith)
    ]
  ]

pub execute-SameBooks :
    (d : Deps) (env : Env) (info : MessageInfo) (msg : ExecuteMsg) (s : Storage)
    → ((n : Text) (c t : ℕ) (g : Text) → msg ≢ ExecuteMsg.withdraw n c t g)
    → OnOk (λ p. SameBooks s p.0) (execute d env info msg s)
unfolding execute execute_deposit execute_fund_treasury execute_withdraw_treasury
    execute_propose_oracle execute_accept_oracle execute_cancel_oracle_transfer execute_update_rate
    execute_update_fee execute_update_limits execute_pause execute_unpause execute_propose_owner
    execute_accept_owner execute_cancel_owner_transfer
execute-SameBooks d env info (ExecuteMsg.withdraw n c t g) s other = absurd (other n c t g refl)
execute-SameBooks d env info ExecuteMsg.deposit s other = ground arith
execute-SameBooks d env info _ s other = ground arith
