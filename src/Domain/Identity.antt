-- ===== src/Domain/Identity.antt =====
-- src/milhouse/domain/identity.py: the deterministic ids of alerts, their transitions, and the
-- notification intents. `sha256` is the hash of bytes; the observation of a transition is taken as
-- `ObservationCoordinateV1` has validated it.
pub mod Order
use milhouse_oss.Prelude.{
  ℕ, ◌+◌, ◌-◌, ◌*◌, ◌/◌, ◌%◌, Bool, Option, none, some, List, ◌||◌, ◌&&◌, [], ◌∷◌, ◌++◌, ltb, leb,
  ◌==◌, if◌then◌else◌, any, length, Text, codes,
}
use milhouse_oss.Core.Canonical.{
  Json, text, integer, object, Fields, end, field, canonical_json_bytes,
}
use milhouse_oss.Python.Outcome.{Outcome, ok, ◌>>=◌, ◌>>◌, fail_if, raised, fault}

pub data IdentityCode : Type 0 where
  alert_input notification_input projection : IdentityCode

-- Control characters, DEL and surrogates.
abbrev pub is_unsafe : ℕ → Bool
is_unsafe c = ltb c 0x20 || (c == 0x7f) || (leb 0xd800 c && leb c 0xdfff)

unfoldable pub contains_unsafe_identifier_characters : Text → Bool
contains_unsafe_identifier_characters s = any is_unsafe s

-- `len(value.encode("utf-8"))`
unfoldable pub utf8_length : Text → ℕ
utf8_length [] = 0
utf8_length (c ∷ s) =
    (if ltb c 0x80 then 1 else if ltb c 0x800 then 2 else if ltb c 0x10000 then 3 else 4)
    + utf8_length s

-- `_require_bounded_safe_text`, of a value that is text.
unfoldable pub require_bounded_safe_text : Text → IdentityCode → Outcome IdentityCode Text
unfolding contains_unsafe_identifier_characters utf8_length
require_bounded_safe_text s c = do
  fail_if ((length s == 0) || contains_unsafe_identifier_characters s) c
  fail_if (ltb 256 (utf8_length s)) c
  ok s

unfoldable pub require_alert_version : ℕ → Outcome IdentityCode ℕ
require_alert_version n = do fail_if (ltb n 1) alert_input; ok n

-- `ObservationCoordinateV1`
pub record Observation : Type 0 where
  pub kind : Text
  pub parts : Fields

abbrev pub observation_json : Observation → Json
observation_json o =
    object (field (codes "kind") (text o.kind) (field (codes "parts") (object o.parts) end))

-- The eight bits of a byte, the highest first.
abbrev bits_of : ℕ → List ℕ
bits_of b =
    b / 128 % 2
    ∷ b / 64 % 2
    ∷ b / 32 % 2
    ∷ b / 16 % 2
    ∷ b / 8 % 2
    ∷ b / 4 % 2
    ∷ b / 2 % 2
    ∷ b % 2
    ∷ []

abbrev all_bits : List ℕ → List ℕ
all_bits [] = []
all_bits (b ∷ l) = bits_of b ++ all_bits l

-- A character of the lower-case alphabet of base32, by its bits.
abbrev base32_character : ℕ → ℕ → ℕ → ℕ → ℕ → ℕ
base32_character a b c d e =
    let v : ℕ = 16 * a + 8 * b + 4 * c + 2 * d + e in if ltb v 26 then b'a' + v else b'2' + (v - 26)

-- Five bits a character, the last ones filled up with zeros.
unfoldable base32_characters : List ℕ → Text
base32_characters [] = []
base32_characters (a ∷ []) = base32_character a 0 0 0 0 ∷ []
base32_characters (a ∷ b ∷ []) = base32_character a b 0 0 0 ∷ []
base32_characters (a ∷ b ∷ c ∷ []) = base32_character a b c 0 0 ∷ []
base32_characters (a ∷ b ∷ c ∷ d ∷ []) = base32_character a b c d 0 ∷ []
base32_characters (a ∷ b ∷ c ∷ d ∷ e ∷ l) = base32_character a b c d e ∷ base32_characters l

-- `_base32_digest`, the padding stripped.
unfoldable pub base32_digest : List ℕ → Text
unfolding base32_characters
base32_digest bytes = base32_characters (all_bits bytes)

abbrev found : Option (List ℕ) → Outcome IdentityCode (List ℕ)
found none = raised (fault projection)
found (some bytes) = ok bytes

module _ (sha256 : List ℕ → List ℕ) (nfc : Text → Text) (decimal : ℕ → Text) where
  -- `_domain_digest`, for a domain that is ASCII and gets its NUL here.
  unfoldable pub domain_digest : Text → Json → Outcome IdentityCode (List ℕ)
  unfolding canonical_json_bytes
  domain_digest domain j = do
    canonical ← found (canonical_json_bytes nfc decimal j)
    ok (sha256 (domain ++ 0 ∷ canonical))

  unfoldable pub derive_alert_key : Text → ℕ → Text → Text → Outcome IdentityCode Text
  unfolding domain_digest base32_digest require_bounded_safe_text require_alert_version
  derive_alert_key rule_id rule_version collector target = do
    c ← require_bounded_safe_text collector alert_input
    r ← require_bounded_safe_text rule_id alert_input
    v ← require_alert_version rule_version
    t ← require_bounded_safe_text target alert_input
    d ← domain_digest (codes "milhouse-alert-key-v1") (
        object (
          field (codes "collector") (text c) (
            field (codes "rule_id") (text r)
              (field (codes "rule_version") (integer v) (field (codes "target") (text t) end)))))
    ok (codes "mh_ak1_" ++ base32_digest d)

  unfoldable pub derive_transition_id : Text → Text → Text → Observation → Outcome IdentityCode Text
  unfolding domain_digest base32_digest require_bounded_safe_text
  derive_transition_id alert_key previous_state state observation = do
    k ← require_bounded_safe_text alert_key alert_input
    p ← require_bounded_safe_text previous_state alert_input
    s ← require_bounded_safe_text state alert_input
    d ← domain_digest (codes "milhouse-alert-transition-v1") (
        object (
          field (codes "alert_key") (text k) (
            field (codes "observation") (observation_json observation)
              (field (codes "previous_state") (text p) (field (codes "state") (text s) end)))))
    ok (codes "mh_atr1_" ++ base32_digest d)

  unfoldable pub derive_notification_intent_id : Text → Text → Outcome IdentityCode Text
  unfolding domain_digest base32_digest require_bounded_safe_text
  derive_notification_intent_id transition_id channel_id = do
    c ← require_bounded_safe_text channel_id notification_input
    t ← require_bounded_safe_text transition_id notification_input
    d ←
        domain_digest (codes "milhouse-notification-intent-v1") (
          object (field (codes "channel_id") (text c) (field (codes "transition_id") (text t) end)))
    ok (codes "mh_nin1_" ++ base32_digest d)
