-- ===== src/Items/Tests.antt =====
-- The theorems about the item NFT at concrete inputs.
use sysbreak_trust.Base.{
  length, prefix, all_pages, occurrences, if◌then◌else◌, ◌↔◌, ◌≤◌, ◌<◌, ◌≡◌, ◌≢◌, refl, arith, ok,
  some, Bool, true, [], ◌∷◌, bytes, is_ok, Has, find, number_key, text_key, pair_key, to_string,
  same_text_iff,
}
use sysbreak_trust.Items.State.{ExecuteMsg}
use sysbreak_trust.Items.Mint.{execute_mint, execute_batch_mint, execute_burn, data_of}
use sysbreak_trust.Items.Transfer.{execute_transfer_nft}
use sysbreak_trust.Items.Contract.{fresh, instantiate, execute}
use sysbreak_trust.Items.Trace.{Reach, start, now, more, any_message, no_burn}
use sysbreak_trust.Items.Ledger.{IsSound, Reach-IsSound}
use sysbreak_trust.Items.Exact.{IsExact}
use sysbreak_trust.Items.Numbering.{Reach-IsExact}
use sysbreak_trust.Items.Ownership.{Fate, item_follows}
use sysbreak_trust.Items.Batch.{mint_each, batch_is_mints}
use sysbreak_trust.Items.Reuse.{Overwritten, burn_then_mint_overwrites}
use sysbreak_trust.Items.Settings.{IsAllowed, IsFair, item_settings_guarded, Reach-IsFair}
use sysbreak_trust.Items.Immutable.{items_immutable}
use sysbreak_trust.Items.Transfers.{CanTransfer, transfer_accepted_iff}
use sysbreak_trust.Items.Listing.{tokens_listed, names, owner_listing_exact}
use sysbreak_trust.Items.Query.{query_tokens}
use sysbreak_trust.Items.Runs.{
  host, setup, config1, sword, state_of, response_of, by, run, play, mint_to, sending, s0, s2, s3,
  burned, minted_again,
}

started : instantiate host setup fresh ≡ ok (s0, response_of (instantiate host setup fresh))
unfolding run
started = refl

reached_two : {lets : ExecuteMsg → Bool} → ((to : _) → lets (mint_to to) ≡ true) → Reach lets s2
unfolding run
reached_two mints =
    play (by 2) (mint_to (bytes "abcd"))
      (play (by 2) (mint_to (bytes "abc")) (start host setup started) (mints _) refl) (mints _) refl

reached_s2 : Reach no_burn s2
reached_s2 = reached_two λ to. refl

reached_s3 : Reach no_burn s3
unfolding run
reached_s3 = play (by 3) sending reached_s2 refl refl

reached_burned : Reach any_message burned
unfolding run
reached_burned = play (by 2) (ExecuteMsg.burn (bytes "1")) (reached_two λ to. refl) refl refl

Reach-IsSound_example : IsSound burned
Reach-IsSound_example = Reach-IsSound reached_burned

Reach-IsExact_example : IsExact s3
Reach-IsExact_example = Reach-IsExact reached_s3

Reach-IsFair_example : IsFair s3
Reach-IsFair_example = Reach-IsFair reached_s3

config_at_s2 : s2.config ≡ some config1
unfolding run
config_at_s2 = refl

first_owned : find (bytes "1") s2.token_owners ≡ some 3
unfolding run
first_owned = refl

sent : execute host (by 3) sending s2 ≡ ok (s3, response_of (execute host (by 3) sending s2))
unfolding run
sent = refl

item_follows_example : Fate (by 3) config1 sending (bytes "1") 3 s2 s3
item_follows_example =
    item_follows host (by 3) sending (bytes "1") reached_s2 config_at_s2 first_owned sent

first_data : find (bytes "1") s2.tokens ≡ some (data_of (sword (bytes "abc")))
unfolding run
first_data = refl

items_immutable_example : find (bytes "1") s3.tokens ≡ some (data_of (sword (bytes "abc")))
items_immutable_example =
    items_immutable (bytes "1") reached_s2 first_data (more host (by 3) sending now refl sent)

batch_is_mints_example :
    ((r : _) × (execute_batch_mint host (by 2) (sword (bytes "abc") ∷ sword (bytes "abcd") ∷ []) s0
        ≡ ok (s2, r)))
    ↔ ((0 < 2)
        × (2 ≤ 50)
        × (mint_each host (by 2) (sword (bytes "abc") ∷ sword (bytes "abcd") ∷ []) s0 ≡ ok s2))
batch_is_mints_example =
    batch_is_mints host (by 2) (sword (bytes "abc") ∷ sword (bytes "abcd") ∷ []) s0 s2 (omega arith)

last_owned : find (to_string 2) s2.token_owners ≡ some 4
unfolding run
last_owned = refl

last_indexed : find (4, to_string 2) s2.owner_tokens ≡ some true
unfolding run
last_indexed = refl

counted_two : s2.token_count ≡ some 2
unfolding run
counted_two = refl

other_number : bytes "1" ≢ to_string 2
unfolding run
other_number e = cc ((same_text_iff (bytes "1") (to_string 2)).1 e)

burn_ran :
    execute_burn (by 2) (bytes "1") s2
    ≡ ok (burned, response_of (execute_burn (by 2) (bytes "1") s2))
unfolding run
burn_ran = refl

mint_ran :
    execute_mint host (by 2) (sword (bytes "abcdef")) burned
    ≡ ok (minted_again, response_of (execute_mint host (by 2) (sword (bytes "abcdef")) burned))
unfolding run
mint_ran = refl

burn_then_mint_overwrites_example :
    Overwritten host (sword (bytes "abcdef")) (to_string 2) 4 s2 minted_again
burn_then_mint_overwrites_example =
    burn_then_mint_overwrites host (by 2) (by 2) (bytes "1") (sword (bytes "abcdef")) 2 4
      counted_two (omega arith) last_owned last_indexed other_number burn_ran mint_ran

pause_ran :
    execute host (by 1) ExecuteMsg.pause s2
    ≡ ok (
      state_of (execute host (by 1) ExecuteMsg.pause s2),
      response_of (execute host (by 1) ExecuteMsg.pause s2),
    )
unfolding run
pause_ran = refl

item_settings_guarded_example :
    Has
      (IsAllowed 1 s2 (state_of (execute host (by 1) ExecuteMsg.pause s2)) config1)
      (state_of (execute host (by 1) ExecuteMsg.pause s2)).config
item_settings_guarded_example =
    item_settings_guarded host (by 1) ExecuteMsg.pause s2 config_at_s2 pause_ran

transfer_accepted_iff_example :
    (is_ok (execute_transfer_nft host (by 3) (bytes "abcde") (bytes "1") s2) ≡ true)
    ↔ CanTransfer host (by 3) (bytes "abcde") (bytes "1") s2
transfer_accepted_iff_example = transfer_accepted_iff host (by 3) (bytes "abcde") (bytes "1") s2

two_indexed : length s2.owner_tokens ≤ 2
unfolding run
two_indexed = omega arith

-- The one token of address 4, in pages of one token.
listed_last : tokens_listed 2 host (bytes "abcd") (some 1) s2 ≡ to_string 2 ∷ []
unfolding run query_tokens all_pages prefix
listed_last = refl

owner_listing_exact_example :
    occurrences (to_string 2) (tokens_listed 2 host (bytes "abcd") (some 1) s2)
    ≡ (if names (find (to_string 2) s2.token_owners) 4 then 1 else 0)
owner_listing_exact_example =
    owner_listing_exact 2 host (bytes "abcd") (some 1) (to_string 2) reached_s2 refl (omega arith)
      two_indexed
