-- ===== src/Achievements/Tests.antt =====
-- The theorems about the achievement NFT at concrete inputs.
use sysbreak_trust.Base.{
  ◌+◌, ◌≡◌, ◌≢◌, refl, arith, ok, err, some, Bool, true, false, bytes, find, number_key, text_key,
  pair_key, same_text_iff,
}
use sysbreak_trust.Achievements.State.{ExecuteMsg, TokenData, is_soulbound}
use sysbreak_trust.Achievements.Mint.{data_of, mint_single, add_token}
use sysbreak_trust.Achievements.Transfer.{execute_transfer_nft}
use sysbreak_trust.Achievements.Contract.{fresh, instantiate, execute}
use sysbreak_trust.Achievements.Trace.{Reach, start, now, more, no_burn}
use sysbreak_trust.Achievements.Exact.{IsExact}
use sysbreak_trust.Achievements.Numbering.{achievement_numbering}
use sysbreak_trust.Achievements.Once.{achievements_once}
use sysbreak_trust.Achievements.Soulbound.{soulbound_stays, soulbound_refused}
use sysbreak_trust.Achievements.Ownership.{Fate, achievement_follows}
use sysbreak_trust.Achievements.Doubled.{transfers_forget_achievement}
use sysbreak_trust.Achievements.Runs.{
  host, setup, config1, deed, response_of, by, run, play, mint_to, giving, giving_on, s0, s2, s3,
  s4,
}

started : instantiate host setup fresh ≡ ok (s0, response_of (instantiate host setup fresh))
unfolding run
started = refl

reached_two : {lets : ExecuteMsg → Bool} → ((to b : _) → lets (mint_to to b) ≡ true) → Reach lets s2
unfolding run
reached_two mints =
    play (by 2) (mint_to (bytes "abcd") false)
      (play (by 2) (mint_to (bytes "abc") true) (start host setup started) (mints _ _) refl)
      (mints _ _) refl

reached_s2 : Reach no_burn s2
reached_s2 = reached_two λ to b. refl

reached_s3 : Reach no_burn s3
unfolding run
reached_s3 = play (by 4) giving reached_s2 refl refl

achievement_numbering_example : IsExact s3
achievement_numbering_example = achievement_numbering reached_s3

abbrev deed_of_3 : TokenData
deed_of_3 = data_of 3 (deed (bytes "abc") true)

abbrev deed_of_4 : TokenData
deed_of_4 = data_of 4 (deed (bytes "abcd") false)

first_stored : find (bytes "1") s2.tokens ≡ some deed_of_3
unfolding run
first_stored = refl

second_stored : find (bytes "2") s2.tokens ≡ some deed_of_4
unfolding run
second_stored = refl

achievements_once_example : bytes "1" ≡ bytes "1"
achievements_once_example =
    achievements_once (bytes "1") (bytes "1") (reached_two λ to b. refl) first_stored first_stored
      refl refl

given : execute host (by 4) giving s2 ≡ ok (s3, response_of (execute host (by 4) giving s2))
unfolding run
given = refl

soulbound_stays_example : find (bytes "1") s3.tokens ≡ some deed_of_3
soulbound_stays_example =
    soulbound_stays (bytes "1") reached_s2 first_stored refl
      (more host (by 4) giving now refl given)

config_at_s2 : s2.config ≡ some config1
unfolding run
config_at_s2 = refl

soulbound_refused_example :
    (execute host (by 3) (ExecuteMsg.transfer_nft (bytes "abcd") (bytes "1")) s2 ≡ err is_soulbound)
    × (execute host (by 3) (ExecuteMsg.send_nft (bytes "abcd") (bytes "1") (bytes "hi")) s2
        ≡ err is_soulbound)
    × (execute host (by 3) (ExecuteMsg.approve (bytes "abcd") (bytes "1")) s2 ≡ err is_soulbound)
soulbound_refused_example =
    soulbound_refused host (by 3) (bytes "abcd") (bytes "1") (bytes "hi") s2 refl config_at_s2 refl
      first_stored refl

achievement_follows_example : Fate (by 4) config1 giving (bytes "2") deed_of_4 s2 s3
achievement_follows_example =
    achievement_follows host (by 4) giving (bytes "2") reached_s2 config_at_s2 second_stored given

gave :
    execute_transfer_nft host (by 4) (bytes "abc") (bytes "2") s2
    ≡ ok (s3, response_of (execute host (by 4) giving s2))
unfolding run
gave = refl

gave_on :
    execute_transfer_nft host (by 3) (bytes "abcde") (bytes "2") s3
    ≡ ok (s4, response_of (execute host (by 3) giving_on s3))
unfolding run
gave_on = refl

counted_two : s2.token_count ≡ some 2
unfolding run
counted_two = refl

other_token : bytes "2" ≢ bytes "1"
other_token e = cc ((same_text_iff (bytes "2") (bytes "1")).1 e)

transfers_forget_achievement_example :
    (find (bytes "1") s4.tokens ≡ some deed_of_3)
    × (mint_single 3 (deed (bytes "abc") true) s4
        ≡ ok (add_token 3 (deed (bytes "abc") true) (2 + 1) s4, 2 + 1))
transfers_forget_achievement_example =
    transfers_forget_achievement host (by 4) (by 3) (bytes "2") (bytes "1") (bytes "abc")
      (bytes "abcde") (deed (bytes "abc") true) 2 s2 s3 second_stored first_stored other_token refl
      refl refl (λ e. cc e) counted_two (omega arith) gave gave_on
