-- ===== src/Bridge/PayloadTests.antt =====
-- The text that the oracle signs, at a concrete withdrawal whose nonce has a colon.
use sysbreak_trust.Base.{ℕ, ◌≡◌, refl, arith, Text, bytes, to_string, sym, ◌∙◌}
use sysbreak_trust.Bridge.Helpers.{withdrawal_payload}
use sysbreak_trust.Bridge.Payload.{payload_tells_all}

abbrev signed : Text
signed = bytes "withdraw:sys-1:bridge:1700:ab:player:2000:19900"

payload_text :
    withdrawal_payload
      (bytes "sys-1")
      (bytes "bridge")
      (bytes "1700:ab")
      (bytes "player")
      2000
      19_900
    ≡ signed
unfolding withdrawal_payload to_string
payload_text = refl

payload_tells_all_example :
    (bytes "sys-1" ≡ bytes "sys-1")
    × (bytes "bridge" ≡ bytes "bridge")
    × (bytes "1700:ab" ≡ bytes "1700:ab")
    × (bytes "player" ≡ bytes "player")
    × (◌≡◌ {A = ℕ} 2000 2000)
    × (◌≡◌ {A = ℕ} 19_900 19_900)
payload_tells_all_example =
    payload_tells_all (bytes "sys-1") (bytes "bridge") (bytes "1700:ab") (bytes "player")
      (bytes "sys-1") (bytes "bridge") (bytes "1700:ab") (bytes "player") 2000 19_900 2000 19_900
      refl refl refl refl refl refl (omega arith) (omega arith) (omega arith) (omega arith)
      (payload_text ∙ sym payload_text)
