-- ===== src/Domain/Identity/Order.antt =====
-- An id does not depend on the order of what it is derived from.
use milhouse_oss.Prelude.{ℕ, ◌≡◌, refl, List, Text}
use milhouse_oss.Core.Canonical.{Fields}
use milhouse_oss.Core.Canonical.Order.{
  Reordered, nodes-Reordered, depth-Reordered, members-Reordered,
}
use milhouse_oss.Domain.Identity.{derive_transition_id}

-- Samples whose observations have the same parts, in whatever order, have the same transition id, or
-- are refused alike.
pub transition_id-Reordered :
    (sha256 : List ℕ → List ℕ) (nfc : Text → Text) (decimal : ℕ → Text)
    (alert_key previous_state state kind : Text) {parts parts' : Fields}
    → Reordered parts parts'
    → derive_transition_id sha256 nfc decimal alert_key previous_state state
        (record { kind = kind; parts = parts })
      ≡ derive_transition_id sha256 nfc decimal alert_key previous_state state
          (record { kind = kind; parts = parts' })
unfolding derive_transition_id
transition_id-Reordered sha256 nfc decimal k p s kind h =
    rw (members-Reordered nfc decimal h, nodes-Reordered h, depth-Reordered h) refl
