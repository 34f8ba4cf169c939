-- ===== src/Bridge/Payload.antt =====
-- What the oracle signs says which withdrawal it is for.
use sysbreak_trust.Base.{
  ℕ, ◌<◌, ◌^◌, ◌≡◌, arith, ◌∷◌, ◌++◌, Text, count, count-++, cut_first, cut_last, to_string,
  to_string-injective, count-to_string,
}
use sysbreak_trust.Bridge.Helpers.{withdrawal_payload}

-- A text without a colon.
abbrev pub IsPlain : Text → Type 0
IsPlain t = count b':' t ≡ 0

-- The part after the nonce.
abbrev tail_of : Text → ℕ → ℕ → Text
tail_of player credits tokens = player ++ (b':' ∷ (to_string credits ++ (b':' ∷ to_string tokens)))

count-tail_of :
    (player : Text) (credits tokens : ℕ)
    → IsPlain player
    → count b':' (tail_of player credits tokens) ≡ 2
count-tail_of player credits tokens h = ground (
  arith,
  count-++ b':' player (b':' ∷ (to_string credits ++ (b':' ∷ to_string tokens))),
  count-++ b':' (to_string credits) (b':' ∷ to_string tokens),
  count-to_string b':' credits (omega arith),
  count-to_string b':' tokens (omega arith),
)

-- The part after `withdraw:` without the literal.
after_word :
    (chain contract nonce player chain' contract' nonce' player' : Text) (c t c' t' : ℕ)
    → withdrawal_payload chain contract nonce player c t
      ≡ withdrawal_payload chain' contract' nonce' player' c' t'
    → chain ++ (b':' ∷ (contract ++ (b':' ∷ (nonce ++ (b':' ∷ tail_of player c t)))))
      ≡ chain' ++ (b':' ∷ (contract' ++ (b':' ∷ (nonce' ++ (b':' ∷ tail_of player' c' t')))))
unfolding withdrawal_payload
after_word chain contract nonce player chain' contract' nonce' player' c t c' t' e = cc e

-- Two withdrawals whose chain, contract and player have no colon in their texts, and whose amounts
-- fit 128 bits, are signed over the same text only if they are the same in all six parts, whatever
-- the nonces, which may have colons.
pub payload_tells_all :
    (chain contract nonce player chain' contract' nonce' player' : Text) (c t c' t' : ℕ)
    → IsPlain chain
    → IsPlain chain'
    → IsPlain contract
    → IsPlain contract'
    → IsPlain player
    → IsPlain player'
    → c < 2 ^ 128
    → t < 2 ^ 128
    → c' < 2 ^ 128
    → t' < 2 ^ 128
    → withdrawal_payload chain contract nonce player c t
      ≡ withdrawal_payload chain' contract' nonce' player' c' t'
    → (chain ≡ chain')
      × (contract ≡ contract')
      × (nonce ≡ nonce')
      × (player ≡ player')
      × (c ≡ c')
      × (t ≡ t')
payload_tells_all chain contract nonce player chain' contract' nonce' player' c t c' t' pc pc' pk
      pk' pp pp' sc st sc' st' e =
    let whole =
      after_word chain contract nonce player chain' contract' nonce' player' c t c' t' e in
    let (same_chain, e1) = cut_first b':' chain chain' _ _ pc pc' whole in
    let (same_contract, e2) = cut_first b':' contract contract' _ _ pk pk' e1 in
    let counts : count b':' (tail_of player c t) ≡ count b':' (tail_of player' c' t') =
      ground (arith, count-tail_of player c t pp, count-tail_of player' c' t' pp') in
    let (same_nonce, e3) = cut_last b':' nonce nonce' _ _ counts e2 in
    let (same_player, e4) = cut_first b':' player player' _ _ pp pp' e3 in
    let (credits, tokens) =
      cut_first b':' (to_string c) (to_string c') _ _ (count-to_string b':' c (omega arith))
        (count-to_string b':' c' (omega arith)) e4 in
    (
      same_chain,
      same_contract,
      same_nonce,
      same_player,
      to_string-injective c c' sc sc' credits,
      to_string-injective t t' st st' tokens,
    )
