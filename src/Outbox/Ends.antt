-- ===== src/Outbox/Ends.antt =====
-- Where the complete lines of a file end, as the file grows.
use milhouse_oss.Prelude.{
  ℕ, zero, suc, ◌≤◌, ◌<◌, ◌⊎◌, ◌≡◌, refl, ap, [], ◌∷◌, ◌++◌, arith, length, inl, inr,
}
use milhouse_oss.Outbox.Lines.{Bytes, lf, take, drop, complete_end, IsComplete}

pub complete_end-bound : (s : Bytes) → complete_end s ≤ length s
unfolding complete_end
complete_end-bound [] = omega arith
complete_end-bound (b ∷ s) = ground (arith, complete_end-bound s)

pub complete_end-grows : (s t : Bytes) → complete_end s ≤ complete_end (s ++ t)
unfolding complete_end
complete_end-grows [] t = omega arith
complete_end-grows (b ∷ s) t = ground (arith, complete_end-grows s t)

extend_end :
    (b : ℕ) (s : Bytes)
    → ((complete_end (b ∷ s) ≡ suc (complete_end s)) × (0 < complete_end s))
      ⊎ (((b ≡ lf) × (complete_end (b ∷ s) ≡ 1)) ⊎ (complete_end (b ∷ s) ≡ 0))
unfolding complete_end
extend_end b s = ground arith

take_extend-IsComplete :
    (n b : ℕ) (s : Bytes)
    → 0 < n
    → n ≤ length s
    → IsComplete (take n s)
    → IsComplete (take (suc n) (b ∷ s))
unfolding take
take_extend-IsComplete zero b s h k c = absurd (omega arith)
take_extend-IsComplete (suc n) b [] h k c = absurd (omega arith)
take_extend-IsComplete (suc n) b (x ∷ s) h k c = c

take_one : (b : ℕ) (s : Bytes) → b ≡ lf → IsComplete (take 1 (b ∷ s))
unfolding take
take_one b s h = h

take_none : (s : Bytes) → IsComplete (take 0 s)
unfolding take
take_none s = tt

IsComplete-nil : IsComplete (take (complete_end []) [])
unfolding complete_end take
IsComplete-nil = tt

-- The bytes up to there are complete lines.
pub complete_end-IsComplete : (s : Bytes) → IsComplete (take (complete_end s) s)
complete_end-IsComplete [] = IsComplete-nil
complete_end-IsComplete (b ∷ s) = elim (extend_end b s) [
  | inl (e, h) ↦ rw e (
      take_extend-IsComplete (complete_end s) b s h (complete_end-bound s)
        (complete_end-IsComplete s))
  | inr (inl (h, e)) ↦ rw e (take_one b s h)
  | inr (inr e) ↦ rw e (take_none (b ∷ s))
]

pub take-append : (n : ℕ) (s t : Bytes) → n ≤ length s → take n (s ++ t) ≡ take n s
unfolding take
take-append zero s t h = refl
take-append (suc n) [] t h = absurd (omega arith)
take-append (suc n) (b ∷ s) t h = ap (λ r. b ∷ r) (take-append n s t (omega arith))

pub take-take : (n m : ℕ) (s : Bytes) → n ≤ m → take n (take m s) ≡ take n s
unfolding take
take-take zero m s h = refl
take-take (suc n) zero s h = absurd (omega arith)
take-take (suc n) (suc m) [] h = refl
take-take (suc n) (suc m) (b ∷ s) h = ap (λ r. b ∷ r) (take-take n m s (omega arith))

pub take-drop : (n : ℕ) (s : Bytes) → take n s ++ drop n s ≡ s
unfolding take drop
take-drop zero s = refl
take-drop (suc n) [] = refl
take-drop (suc n) (b ∷ s) = ap (λ r. b ∷ r) (take-drop n s)

pub length-take : (n : ℕ) (s : Bytes) → n ≤ length s → length (take n s) ≡ n
unfolding take
length-take zero s h = refl
length-take (suc n) [] h = absurd (omega arith)
length-take (suc n) (b ∷ s) h = ap suc (length-take n s (omega arith))
