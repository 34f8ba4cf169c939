-- ===== src/Bridge/PlayerLimit.antt =====
-- The limits of each player, over histories: the daily limit and the cooldown.
use sysbreak_trust.Base.{
  ℕ, ◌+◌, ◌*◌, ◌≤◌, ◌<◌, ◌≡◌, arith, ok, some, none, List, [], ◌∷◌, ◌++◌, Text, eqb, eqb_iff,
  if◌then◌else◌, Option, find, find-save, number_key, ◌∙◌, nanos_per_second, unwrap_or, is_ok, true,
  Bool-cases, inl, inr,
}
use mathlib.Core.Path.{subst}
use sysbreak_trust.Host.{Addr, Env, MessageInfo, Deps, Response}
use sysbreak_trust.Bridge.State.{Config, Storage, ExecuteMsg}
use sysbreak_trust.Bridge.Helpers.{check_player_limits, window_loop}
use sysbreak_trust.Bridge.Withdraw.{authorize, execute_withdraw}
use sysbreak_trust.Bridge.Trace.{Withdrawal, as_record, logged, Reach}
use sysbreak_trust.Bridge.Frame.{
  SameBooks, Withdrawn, execute_withdraw-Withdrawn, cutoff_of, entry_of,
}
use sysbreak_trust.Bridge.Induction.{Blank, Reach-induction}
use sysbreak_trust.Bridge.Window.{
  share, list_sum, list_sum-append, window_loop-total, window_loop-active,
}

-- The credits that a player withdrew from `cutoff` on, and when the player last withdrew.
abbrev pub player_window : Addr → ℕ → List Withdrawal → ℕ
player_window p cutoff [] = 0
player_window p cutoff (w ∷ h) =
    (if eqb w.player p then share cutoff (as_record w) else 0) + player_window p cutoff h

abbrev pub last_time : Addr → List Withdrawal → Option ℕ
last_time p [] = none
last_time p (w ∷ h) = if eqb w.player p then some w.time else last_time p h

-- The records of every player agree with the history.
pub record IsTracked (s : Storage) (h : List Withdrawal) (now : ℕ) : Type 0 where
  pub summed :
      (p : Addr) (cutoff : ℕ)
      → cutoff_of now ≤ cutoff
      → list_sum cutoff (unwrap_or [] (find p s.player_withdrawals)) ≡ player_window p cutoff h
  pub last : (p : Addr) → find p s.player_last_withdrawal ≡ last_time p h

Blank-IsTracked : (s : Storage) (now : ℕ) → Blank s → IsTracked s [] now
unfolding find
Blank-IsTracked s now b = record {
  summed = λ p cutoff le. rw (b.player_withdrawals);
  last = λ p. rw (b.player_last_withdrawal);
}

SameBooks-IsTracked :
    (s s' : Storage) (h : List Withdrawal) (now now' : ℕ)
    → SameBooks s s'
    → now ≤ now'
    → IsTracked s h now
    → IsTracked s' h now'
SameBooks-IsTracked s s' h now now' b later k = record {
  summed = λ p cutoff le. rw (b.player_withdrawals) (k.summed p cutoff (omega arith));
  last = λ p. rw (b.player_last_withdrawal) (k.last p);
}

Withdrawn-IsTracked :
    (d : Deps) (env : Env) (info : MessageInfo) (nonce : Text) (credits tokens : ℕ)
    (signature : Text) (s s' : Storage) (r : Response) (h : List Withdrawal) (now : ℕ)
    → Withdrawn d env info nonce credits tokens signature s s' r
    → now ≤ env.time
    → IsTracked s h now
    → IsTracked s' (logged env info (ExecuteMsg.withdraw nonce credits tokens signature) h) env.time
Withdrawn-IsTracked d env info nonce credits tokens signature s s' r h now w later k =
    let old = unwrap_or [] (find info.sender s.player_withdrawals) in
    let kept = (window_loop (cutoff_of env.time) old [] 0).0 in
    let entry = entry_of credits env.time ∷ [] in
    record {
      summed = λ p cutoff late.
          rw
            (
              w.recorded.player_withdrawals,
              find-save info.sender p (kept ++ entry) s.player_withdrawals,
            )
            (elim (Bool-cases (eqb info.sender p)) [
              | inl own ↦
                  let is_own : info.sender ≡ p = (eqb_iff info.sender p).0 own in
                  let before =
                    subst (λ q. list_sum cutoff old ≡ player_window q cutoff h) is_own
                      (k.summed info.sender cutoff (omega arith)) in
                  rw own (
                    omega (
                      arith,
                      before,
                      list_sum-append cutoff kept entry,
                      window_loop-active (cutoff_of env.time) cutoff old [] 0 late,
                    ))
              | inr other ↦ rw other (omega (arith, k.summed p cutoff (omega arith)))
            ]);
      last = λ p.
          rw
            (
              w.recorded.player_last_withdrawal,
              find-save info.sender p env.time s.player_last_withdrawal,
            )
            (ground (arith, k.last p));
    }

-- In every history the records of each player have the sums of the history.
pub Reach-IsTracked :
    {s : Storage} {h : List Withdrawal} {now : ℕ} → Reach s h now → IsTracked s h now
Reach-IsTracked = Reach-induction IsTracked Blank-IsTracked SameBooks-IsTracked Withdrawn-IsTracked

module _ (d : Deps) (env : Env) (info : MessageInfo) (config : Config) (nonce : Text)
    (credits tokens : ℕ) (signature : Text) (s : Storage) (fee : ℕ) where
  -- The checks of the player are among those that a withdrawal passes.
  authorize-player :
      authorize d env info config nonce credits tokens signature s ≡ ok fee
      → is_ok (check_player_limits s env info.sender credits config) ≡ true
  unfolding authorize
  authorize-player h = ground arith

-- What a passed check says of the stored records.
module _ (s : Storage) (env : Env) (player : Addr) (credits : ℕ) (config : Config) where
  check_player_limits-room :
      0 < credits
      → is_ok (check_player_limits s env player credits config) ≡ true
      → list_sum (cutoff_of env.time) (unwrap_or [] (find player s.player_withdrawals)) + credits
        ≤ config.player_daily_limit
  unfolding check_player_limits
  check_player_limits-room pos h = ground (
    arith,
    window_loop-total (cutoff_of env.time) (unwrap_or [] (find player s.player_withdrawals)) [] 0,
  )

  check_player_limits-cooldown :
      (last : ℕ)
      → find player s.player_last_withdrawal ≡ some last
      → is_ok (check_player_limits s env player credits config) ≡ true
      → last + config.cooldown_seconds * nanos_per_second ≤ env.time
  unfolding check_player_limits
  check_player_limits-cooldown last e h = ground arith

module _ (d : Deps) (env : Env) (info : MessageInfo) (nonce : Text) (credits tokens : ℕ)
    (signature : Text) {s s' : Storage} {r : Response} {h : List Withdrawal} {now : ℕ}
    {config : Config} (reached : Reach s h now) (later : now ≤ env.time)
    (e : s.config ≡ some config)
    (k : execute_withdraw d env info nonce credits tokens signature s ≡ ok (s', r)) where
  -- In every history, when a withdrawal succeeds, the credits that its player withdrew in the day
  -- that ends with it, itself included, are within the player's daily limit that is then set.
  pub player_limit_kept :
      player_window info.sender
        (cutoff_of env.time)
        (logged env info (ExecuteMsg.withdraw nonce credits tokens signature) h)
      ≤ config.player_daily_limit
  player_limit_kept =
      let w = execute_withdraw-Withdrawn d env info nonce credits tokens signature s s' r k in
      let same : w.config ≡ config = cc (w.stored) in
      let passed =
        authorize-player d env info w.config nonce credits tokens signature s w.fee w.authorized in
      let room = check_player_limits-room s env info.sender credits w.config w.credits_pos passed in
      let sum = (Reach-IsTracked reached).summed info.sender (cutoff_of env.time) (omega arith) in
      rw (← same) (ground (arith, sum, room))

  -- In every history, a withdrawal that succeeds comes at least the cooldown that is then set
  -- after the last withdrawal of its player, if there was one.
  pub cooldown_kept :
      (last : ℕ)
      → last_time info.sender h ≡ some last
      → last + config.cooldown_seconds * nanos_per_second ≤ env.time
  cooldown_kept last at =
      let w = execute_withdraw-Withdrawn d env info nonce credits tokens signature s s' r k in
      let same : w.config ≡ config = cc (w.stored) in
      let passed =
        authorize-player d env info w.config nonce credits tokens signature s w.fee w.authorized in
      rw (← same) (
        check_player_limits-cooldown s env info.sender credits w.config last
          ((Reach-IsTracked reached).last info.sender ∙ at) passed)
