-- ===== src/Examples/Identity.antt =====
-- core/canonical.py and domain/identity.py at one observation.
use milhouse_oss.Prelude.{ℕ, ◌≡◌, List, Text, codes}
use milhouse_oss.Core.Canonical.{Fields, text, integer, end, field}
use milhouse_oss.Core.Canonical.Order.{Reordered, kept, swapped, followed}
use milhouse_oss.Domain.Identity.{derive_transition_id}
use milhouse_oss.Domain.Identity.Order.{transition_id-Reordered}
use milhouse_oss.Examples.Data.{job}
use milhouse_oss.Outbox.Lines.{take}
use milhouse_oss.Prelude.{[], ◌∷◌}

abbrev sha256 : List ℕ → List ℕ
sha256 bytes = take 20 bytes

abbrev nfc : Text → Text
nfc s = s

abbrev decimal : ℕ → Text
decimal n = n ∷ []

abbrev parts : Fields
parts =
    field (codes "rule") (text job) (
      field (codes "target") (text (codes "site-1"))
        (field (codes "rule_version") (integer 49) end))

abbrev shuffled : Fields
shuffled =
    field (codes "target") (text (codes "site-1"))
      (field (codes "rule_version") (integer 49) (field (codes "rule") (text job) end))

shuffled_parts : Reordered parts shuffled
shuffled_parts = followed swapped (kept swapped)

transition_id-Reordered_example :
    derive_transition_id sha256 nfc decimal job
      (codes "inactive")
      (codes "firing")
      (record { kind = codes "sample"; parts = parts })
    ≡ derive_transition_id sha256 nfc decimal job
        (codes "inactive")
        (codes "firing")
        (record { kind = codes "sample"; parts = shuffled })
transition_id-Reordered_example =
    transition_id-Reordered sha256 nfc decimal job (codes "inactive") (codes "firing")
      (codes "sample") shuffled_parts
