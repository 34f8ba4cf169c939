-- ===== src/Bridge/GlobalLimit.antt =====
-- The global daily limit of the credit bridge, over histories: the records that the storage keeps
-- have the sum of all withdrawals in the window, though old ones are pruned ten at a time.
use sysbreak_trust.Base.{
  ℕ, ◌+◌, ◌-◌, ◌≤◌, ◌<◌, ◌≡◌, arith, ok, some, List, [], ◌∷◌, Text, find, save, number_key, Map,
  is_ok, true,
}
use native.Mathlib.Nat.{le_refl}
use sysbreak_trust.Host.{Env, MessageInfo, Deps, Response}
use sysbreak_trust.Bridge.State.{Config, Storage, ExecuteMsg, WithdrawalRecord}
use sysbreak_trust.Bridge.Helpers.{check_global_limit}
use sysbreak_trust.Bridge.Withdraw.{authorize, execute_withdraw}
use sysbreak_trust.Bridge.Trace.{Withdrawal, as_record, logged, Reach}
use sysbreak_trust.Bridge.Frame.{
  SameBooks, Withdrawn, execute_withdraw-Withdrawn, cutoff_of, entry_of, pruned_of,
}
use sysbreak_trust.Bridge.Induction.{Blank, Reach-induction}
use sysbreak_trust.Bridge.Window.{share, range_sum, range_sum-push, global_loop-eq, prune-keeps}

-- The credits that were withdrawn from `cutoff` on.
abbrev pub in_window : ℕ → List Withdrawal → ℕ
in_window cutoff [] = 0
in_window cutoff (w ∷ h) = share cutoff (as_record w) + in_window cutoff h

-- The sum over the indices from `oldest` to `counter`.
abbrev stored_sum : ℕ → Map ℕ WithdrawalRecord → ℕ → ℕ → ℕ
stored_sum cutoff m counter oldest = range_sum cutoff m (counter + 1 - oldest) oldest

-- The stored records agree with the history on every window of this call and of later ones.
pub record IsCounted (s : Storage) (h : List Withdrawal) (now : ℕ) : Type 0 where
  pub ordered : (c o : ℕ) → s.global_wd_counter ≡ some c → s.global_wd_oldest ≡ some o → o ≤ c
  pub summed :
      (c o : ℕ)
      → s.global_wd_counter ≡ some c
      → s.global_wd_oldest ≡ some o
      → (cutoff : ℕ) → cutoff_of now ≤ cutoff
      → stored_sum cutoff s.global_withdrawal_records c o ≡ in_window cutoff h

Blank-IsCounted : (s : Storage) (now : ℕ) → Blank s → IsCounted s [] now
unfolding range_sum find
Blank-IsCounted s now b = record {
  ordered = λ c o e e'. ground (arith, b.global_wd_counter, b.global_wd_oldest);
  summed = λ c o e e' cutoff le.
      let zero_c : c ≡ 0 = ground (arith, b.global_wd_counter) in
      let zero_o : o ≡ 0 = ground (arith, b.global_wd_oldest) in
      rw (zero_c, zero_o, b.global_records);
}

SameBooks-IsCounted :
    (s s' : Storage) (h : List Withdrawal) (now now' : ℕ)
    → SameBooks s s'
    → now ≤ now'
    → IsCounted s h now
    → IsCounted s' h now'
SameBooks-IsCounted s s' h now now' b later k = record {
  ordered = λ c o e e'. k.ordered c o (cc (b.global_wd_counter)) (cc (b.global_wd_oldest));
  summed = λ c o e e' cutoff le.
      rw (b.global_records)
        (k.summed c o (cc (b.global_wd_counter)) (cc (b.global_wd_oldest)) cutoff (omega arith));
}

-- Saving the new entry behind the last one, and pruning.
stored_sum-pruned :
    (now credits : ℕ) (s : Storage) (c o cutoff : ℕ)
    → o ≤ c
    → cutoff_of now ≤ cutoff
    → let (m, oldest) = pruned_of now credits s c o in
      (oldest ≤ c + 1)
      × (stored_sum cutoff m (c + 1) oldest
          ≡ stored_sum cutoff s.global_withdrawal_records c o + share cutoff (entry_of credits now))
stored_sum-pruned now credits s c o cutoff le late =
    let m = save (c + 1) (entry_of credits now) s.global_withdrawal_records in
    let (low, same) = prune-keeps (cutoff_of now) (c + 1) 10 m o cutoff late (omega arith) in
    (
      low,
      omega (
        arith,
        same,
        range_sum-push cutoff (entry_of credits now) s.global_withdrawal_records c o le,
      ),
    )

Withdrawn-IsCounted :
    (d : Deps) (env : Env) (info : MessageInfo) (nonce : Text) (credits tokens : ℕ)
    (signature : Text) (s s' : Storage) (r : Response) (h : List Withdrawal) (now : ℕ)
    → Withdrawn d env info nonce credits tokens signature s s' r
    → now ≤ env.time
    → IsCounted s h now
    → IsCounted s' (logged env info (ExecuteMsg.withdraw nonce credits tokens signature) h) env.time
Withdrawn-IsCounted d env info nonce credits tokens signature s s' r h now w later k =
    let old = w.recorded.counter in
    let first = w.recorded.oldest in
    let le = k.ordered old first w.recorded.old_counter w.recorded.old_oldest in
    let new_o = (pruned_of env.time credits s old first).1 in
    let pruned = stored_sum-pruned env.time credits s old first in
    record {
      ordered = λ c o e e'.
          let is_c : c ≡ old + 1 = cc (w.recorded.new_counter) in
          let is_o : o ≡ new_o = cc (w.recorded.new_oldest) in
          rw (is_c, is_o) (pruned (cutoff_of env.time) le (le_refl _)).0;
      summed = λ c o e e' cutoff late.
          let is_c : c ≡ old + 1 = cc (w.recorded.new_counter) in
          let is_o : o ≡ new_o = cc (w.recorded.new_oldest) in
          let before =
            k.summed old first w.recorded.old_counter w.recorded.old_oldest cutoff (omega arith) in
          rw (is_c, is_o, w.recorded.records) (omega (arith, (pruned cutoff le late).1, before));
    }

-- In every history the stored records have the sums of the history.
pub Reach-IsCounted :
    {s : Storage} {h : List Withdrawal} {now : ℕ} → Reach s h now → IsCounted s h now
Reach-IsCounted = Reach-induction IsCounted Blank-IsCounted SameBooks-IsCounted Withdrawn-IsCounted

-- The global check is among those that a withdrawal passes.
authorize-global :
    (d : Deps) (env : Env) (info : MessageInfo) (config : Config) (nonce : Text)
    (credits tokens : ℕ) (signature : Text) (s : Storage) (fee : ℕ)
    → authorize d env info config nonce credits tokens signature s ≡ ok fee
    → is_ok (check_global_limit s env credits config) ≡ true
unfolding authorize
authorize-global d env info config nonce credits tokens signature s fee h = ground arith

-- What a passed check says of the stored records.
check_global_limit-room :
    (s : Storage) (env : Env) (credits : ℕ) (config : Config) (c o : ℕ)
    → s.global_wd_counter ≡ some c
    → s.global_wd_oldest ≡ some o
    → 0 < credits
    → is_ok (check_global_limit s env credits config) ≡ true
    → stored_sum (cutoff_of env.time) s.global_withdrawal_records c o + credits
      ≤ config.global_daily_limit
unfolding check_global_limit
check_global_limit-room s env credits config c o e e' pos h =
    let m = s.global_withdrawal_records in
    ground (arith, global_loop-eq (cutoff_of env.time) m (c + 1 - o) o 0)

-- In every history, when a withdrawal succeeds, the credits withdrawn in the day that ends with it,
-- itself included, are within the global daily limit that is then set.
pub global_limit_kept :
    (d : Deps) (env : Env) (info : MessageInfo) (nonce : Text) (credits tokens : ℕ)
    (signature : Text) {s s' : Storage} {r : Response} {h : List Withdrawal} {now : ℕ}
    {config : Config}
    → Reach s h now
    → now ≤ env.time
    → s.config ≡ some config
    → execute_withdraw d env info nonce credits tokens signature s ≡ ok (s', r)
    → in_window
        (cutoff_of env.time)
        (logged env info (ExecuteMsg.withdraw nonce credits tokens signature) h)
      ≤ config.global_daily_limit
global_limit_kept d env info nonce credits tokens signature {s} {s'} {r} {h} {now} {config} reached
      later e k =
    let w = execute_withdraw-Withdrawn d env info nonce credits tokens signature s s' r k in
    let rec = w.recorded in
    let same : w.config ≡ config = cc (w.stored) in
    let passed =
      authorize-global d env info w.config nonce credits tokens signature s w.fee w.authorized in
    let room =
      check_global_limit-room s env credits w.config rec.counter rec.oldest rec.old_counter
        rec.old_oldest w.credits_pos passed in
    let sum =
      (Reach-IsCounted reached).summed rec.counter rec.oldest rec.old_counter rec.old_oldest
        (cutoff_of env.time) (omega arith) in
    let all : share (cutoff_of env.time) (entry_of credits env.time) ≤ credits = ground arith in
    rw (← same) (omega (arith, sum, room, all))
