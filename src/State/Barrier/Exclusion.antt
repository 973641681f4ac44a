-- ===== src/State/Barrier/Exclusion.antt =====
-- What the turnstile of the two locks excludes.
use milhouse_oss.Prelude.{
  ℕ, ◌≡◌, ◌≢◌, ◌∙◌, sym, ==_iff, refl, inl, inr, Bool, Bool-cases, true, false, not, ◌&&◌, ◌||◌,
  none, some, List, [], ◌∷◌, all, arith, ◌==◌, if◌then◌else◌,
}
use milhouse_oss.State.Barrier.{
  Lock, free, held_shared, held_exclusive, Phase, outside, entering, admitted, writing, queued,
  maintaining, leaving, awaiting, recovering, handing_over, handed, gate_of, main_of, Need, need,
  no_exclusive, is_free, permits, System, put, call, IsReachable, start, step,
}

-- Two locks on one file, of two processes.
abbrev pub compatible : Lock → Lock → Bool
compatible free l = true
compatible held_shared l = no_exclusive l
compatible held_exclusive l = is_free l

-- From the start of maintenance or recovery to the release of the gate.
abbrev pub is_alone : Phase → Bool
is_alone maintaining = true
is_alone recovering = true
is_alone handing_over = true
is_alone handed = true
is_alone p = false

abbrev pub is_outside : Phase → Bool
is_outside outside = true
is_outside p = false

-- Two processes that may be in these phases at one time.
unfoldable pub apart : Phase → Phase → Bool
unfolding gate_of main_of
apart p q =
    compatible (gate_of p) (gate_of q)
    && compatible (main_of p) (main_of q)
    && (not (is_alone p) || is_outside q)
    && (not (is_alone q) || is_outside p)

unfoldable pub phases : List Phase
phases =
    outside ∷ entering ∷ admitted ∷ writing ∷ queued ∷ maintaining ∷ leaving ∷ awaiting ∷ recovering
    ∷ handing_over ∷ handed ∷ []

-- A test that every phase passes.
pub every_phase : (f : Phase → Bool) → all f phases ≡ true → (p : Phase) → f p ≡ true
unfolding phases
every_phase f h outside = ground arith
every_phase f h entering = ground arith
every_phase f h admitted = ground arith
every_phase f h writing = ground arith
every_phase f h queued = ground arith
every_phase f h maintaining = ground arith
every_phase f h leaving = ground arith
every_phase f h awaiting = ground arith
every_phase f h recovering = ground arith
every_phase f h handing_over = ground arith
every_phase f h handed = ground arith

abbrev is_safe : Phase → Phase → Phase → Bool
is_safe p q r = elim (need p q) [
  | none ↦ true
  | some n ↦ not (permits n r) || not (apart p r) || apart q r
]

all_safe : all (λ p. all (λ q. all (is_safe p q) phases) phases) phases ≡ true
unfolding phases need permits apart
all_safe = refl

-- A call that the lock of a process in phase `r` leaves room for keeps apart from it.
call-apart :
    (p q r : Phase) (n : Need)
    → need p q ≡ some n
    → permits n r ≡ true
    → apart p r ≡ true
    → apart q r ≡ true
call-apart p q r n h k a =
    let safe : is_safe p q r ≡ true =
      every_phase (is_safe p q)
        (every_phase (λ q. all (is_safe p q) phases)
          (every_phase (λ p. all (λ q. all (is_safe p q) phases) phases) all_safe p) q)
        r in
    ground (arith, safe, h, k, a)

abbrev is_swapped : Phase → Phase → Bool
is_swapped p q = if apart p q then apart q p else not (apart q p)

all_swapped : all (λ p. all (is_swapped p) phases) phases ≡ true
unfolding phases apart
all_swapped = refl

pub apart-swap : (p q : Phase) → apart p q ≡ apart q p
apart-swap p q =
    let k : is_swapped p q ≡ true =
      every_phase (is_swapped p) (every_phase (λ p. all (is_swapped p) phases) all_swapped p) q in
    ground (arith, k)

-- No two processes are in phases that exclude each other.
abbrev pub IsSafe : System → Type 0
IsSafe s = (i j : ℕ) → i ≢ j → apart (s i) (s j) ≡ true

pub call-IsSafe :
    (s : System) (i : ℕ) (q : Phase) (n : Need)
    → need (s i) q ≡ some n
    → ((j : ℕ) → j ≢ i → permits n (s j) ≡ true)
    → IsSafe s
    → IsSafe (put s i q)
unfolding put
call-IsSafe s i q n h room a x y ne = elim (Bool-cases (x == i)) [
  | inl e ↦ elim (Bool-cases (y == i)) [
    | inl f ↦ absurd (ne (same_index x i e ∙ sym (same_index y i f)))
    | inr f ↦ rw (e, f) (beside y f)
  ]
  | inr e ↦ elim (Bool-cases (y == i)) [
    | inl f ↦ rw (e, f) (apart-swap (s x) q ∙ beside x e)
    | inr f ↦ rw (e, f) (a x y ne)
  ]
]
  where
    same_index : (x y : ℕ) → (x == y) ≡ true → x ≡ y
    same_index x y k = (==_iff x y).0 k

    other_index : (x y : ℕ) → (x == y) ≡ false → x ≢ y
    other_index x y k e = absurd (ground (arith, k, e))

    beside : (y : ℕ) → (y == i) ≡ false → apart q (s y) ≡ true
    beside y f =
        let out = other_index y i f in
        call-apart (s i) q (s y) n h (room y out) (apart-swap (s i) (s y) ∙ a y i out)

-- In every reachable state, whatever the processes have called, failed at or died in, two different
-- processes never hold locks on one file that exclude each other, and while one of them maintains,
-- recovers, or hands its recovery over to the shared side, the other holds no lock at all: no writer
-- overlaps maintenance, and none slips in between recovery and the writes that follow it.
pub reachable-IsSafe : (s : System) → IsReachable s → IsSafe s
unfolding apart
reachable-IsSafe s start = λ i j ne. refl
reachable-IsSafe s (step {s = s0} r (call i q n h room)) =
    call-IsSafe s0 i q n h room (reachable-IsSafe s0 r)
