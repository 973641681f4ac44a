-- ===== src/State/Barrier/Drain.antt =====
-- A queued maintainer: new writers wait behind it, and those that write finish.
use milhouse_oss.Prelude.{
  ℕ, zero, suc, ◌+◌, ◌-◌, ◌≡◌, ◌≢◌, ◌<◌, ◌≤◌, leb, ◌∙◌, sym, ap, ==_iff, refl, inl, inr, Bool,
  Bool-cases, true, false, not, ◌&&◌, ◌||◌, none, some, all, arith, ◌==◌, if◌then◌else◌,
}
use milhouse_oss.State.Barrier.{
  Phase, outside, writing, queued, maintaining, need, Need, nothing, main_exclusive, permits,
  System, put, Step, call, IsReachable, step,
}
use milhouse_oss.State.Barrier.Exclusion.{is_outside, apart, phases, every_phase, reachable-IsSafe}

abbrev pub is_writing : Phase → Bool
is_writing writing = true
is_writing p = false

-- Of the processes below `n`, those that write.
unfoldable pub writers : ℕ → System → ℕ
writers zero s = 0
writers (suc n) s = (if is_writing (s n) then 1 else 0) + writers n s

-- `k` calls of processes other than `m`.
pub data Run (m : ℕ) (s : System) : ℕ → System → Type 0 where
  stay : Run m s 0 s
  more :
      {k : ℕ} {t : System} (i : ℕ) (q : Phase) (n : Need)
      → Run m s k t
      → i ≢ m
      → need (t i) q ≡ some n
      → ((j : ℕ) → j ≢ i → permits n (t j) ≡ true)
      → Run m s (suc k) (put t i q)

abbrev drains : Phase → Phase → Bool
drains p q = elim (need p q) [
  | none ↦ true
  | some n ↦ not (apart queued p) || not (permits n queued) || (is_writing p && is_outside q)
]

all_drain : all (λ p. all (drains p) phases) phases ≡ true
unfolding phases need permits apart
all_drain = refl

-- While a process is queued, all that another can do is to stop writing.
call-drains :
    (p q : Phase) (n : Need)
    → need p q ≡ some n
    → permits n queued ≡ true
    → apart queued p ≡ true
    → (is_writing p ≡ true) × (is_writing q ≡ false)
call-drains p q n h k a =
    let d : drains p q ≡ true =
      every_phase (drains p) (every_phase (λ p. all (drains p) phases) all_drain p) q in
    ground (arith, d, h, k, a, outside_lem q)
  where
    outside_lem : (q : Phase) → is_outside q ≡ true → is_writing q ≡ false
    outside_lem outside e = refl
    outside_lem _ e = absurd (cc e)

-- A write beyond `n` does not count, one below counts for itself.
writers-put_above :
    (n : ℕ) (s : System) (i : ℕ) (q : Phase) → n ≤ i → writers n (put s i q) ≡ writers n s
unfolding writers put
writers-put_above zero s i q le = refl
writers-put_above (suc n) s i q le = ground (arith, writers-put_above n s i q)

writers-put :
    (n : ℕ) (s : System) (i : ℕ) (q : Phase)
    → i < n
    → is_writing (s i) ≡ true
    → is_writing q ≡ false
    → suc (writers n (put s i q)) ≡ writers n s
unfolding writers put
writers-put zero s i q lt h k = absurd (omega arith)
writers-put (suc n) s i q lt h k = elim (Bool-cases (n == i)) [
  | inl e ↦
      let same : n ≡ i = (==_iff n i).0 e in
      let h' : is_writing (s n) ≡ true = ap (λ x. is_writing (s x)) same ∙ h in
      ground (arith, e, h', k, same, writers-put_above n s i q)
  | inr e ↦ let lt' : i < n = ground (arith, e) in ground (arith, e, writers-put n s i q lt' h k)
]

writers-none : (n : ℕ) (s : System) (j : ℕ) → j < n → writers n s ≡ 0 → is_writing (s j) ≡ false
unfolding writers
writers-none zero s j lt h = absurd (omega arith)
writers-none (suc n) s j lt h = elim (Bool-cases (j == n)) [
  | inl e ↦
      let same : j ≡ n = (==_iff j n).0 e in
      let k : is_writing (s n) ≡ false = ground (arith, h) in ap (λ x. is_writing (s x)) same ∙ k
  | inr e ↦ writers-none n s j (ground (arith, e)) (ground (arith, h))
]

find_writer :
    (n : ℕ) (s : System) {k : ℕ}
    → writers n s ≡ suc k
    → (i : ℕ) × (i < n) × (is_writing (s i) ≡ true)
unfolding writers
find_writer zero s h = absurd (omega arith)
find_writer (suc n) s {k = k} h = elim (Bool-cases (is_writing (s n))) [
  | inl e ↦ (n, omega arith, e)
  | inr e ↦ let (i, lt, w) = find_writer n s {k = k} (ground (arith, e, h)) in (i, omega arith, w)
]

put-other : (s : System) (i m : ℕ) (q : Phase) → i ≢ m → put s i q m ≡ s m
unfolding put
put-other s i m q ne = elim (Bool-cases (m == i)) [
  | inl e ↦ absurd (ne (sym ((==_iff m i).0 e)))
  | inr e ↦ rw e refl
]

writing_lem : (p : Phase) → is_writing p ≡ true → p ≡ writing
writing_lem writing h = refl
writing_lem _ h = absurd (cc h)

abbrev is_clear : Phase → Bool
is_clear p = not (apart queued p) || is_writing p || permits main_exclusive p

all_clear : all is_clear phases ≡ true
unfolding phases permits apart
all_clear = refl

-- Beside a queued process, only a writer stands in the way of the main lock.
clear_lem :
    (p : Phase) → apart queued p ≡ true → is_writing p ≡ false → permits main_exclusive p ≡ true
clear_lem p a w =
    let c : is_clear p ≡ true = every_phase is_clear all_clear p in ground (arith, c, a, w)

module _ (m n : ℕ) where
  -- Process `m` is queued, and no process from `n` on has a lock.
  pub record Waiting (s : System) : Type 0 where
    pub reachable : IsReachable s
    pub is_queued : s m ≡ queued
    pub beyond : (j : ℕ) → n ≤ j → j ≢ m → s j ≡ outside

  Waiting-step :
      (s : System) (i : ℕ) (q : Phase) (a : Need)
      → Waiting s
      → i ≢ m
      → need (s i) q ≡ some a
      → ((j : ℕ) → j ≢ i → permits a (s j) ≡ true)
      → Waiting (put s i q) × (suc (writers n (put s i q)) ≡ writers n s)
  Waiting-step s i q a w ne h room =
      let room' : permits a queued ≡ true =
        ap (permits a) (sym w.is_queued) ∙ room m (λ e. ne (sym e)) in
      let beside : apart queued (s i) ≡ true =
        ap (λ p. apart p (s i)) (sym w.is_queued)
        ∙ reachable-IsSafe s w.reachable m i (λ e. ne (sym e)) in
      let (was, is) = call-drains (s i) q a h room' beside in
      let lt : i < n = elim (Bool-cases (leb n i)) [
        | inl e ↦ absurd (idle i was (w.beyond i (ground (arith, e)) ne))
        | inr e ↦ ground (arith, e)
      ] in
      (
        record {
          reachable = step w.reachable (call i q a h room);
          is_queued = put-other s i m q ne ∙ w.is_queued;
          beyond =
              λ j le out. put-other s i j q (λ e. absurd (omega (arith, e))) ∙ w.beyond j le out;
        },
        writers-put n s i q lt was is,
      )
    where
      idle : (i : ℕ) → is_writing (s i) ≡ true → s i ≡ outside → ⊥
      idle i h e = absurd (cc (ap is_writing e, h))

  run-Waiting :
      (s t : System) (k : ℕ) → Waiting s → Run m s k t → Waiting t × (k + writers n t ≡ writers n s)
  run-Waiting s t zero w stay = (w, omega arith)
  run-Waiting s t (suc k) w (more {t = u} i q a r ne h room) =
      let (w', e) = run-Waiting s u k w r in
      let (w'', e') = Waiting-step u i q a w' ne h room in (w'', omega (arith, e, e'))

  granted : (t : System) → Waiting t → writers n t ≡ 0 → Step t (put t m maintaining)
  unfolding need
  granted t w none_left = call m maintaining main_exclusive (rw w.is_queued refl) (λ j ne.
      clear_lem (t j)
        (ap (λ p. apart p (t j)) (sym w.is_queued)
          ∙ reachable-IsSafe t w.reachable m j (λ e. ne (sym e)))
        (quiet j ne))
    where
      quiet : (j : ℕ) → j ≢ m → is_writing (t j) ≡ false
      quiet j ne = elim (Bool-cases (leb n j)) [
        | inl e ↦ ap is_writing (w.beyond j (ground (arith, e)) ne)
        | inr e ↦ writers-none n t j (ground (arith, e)) none_left
      ]

  run_to : (s : System) (k : ℕ) → Waiting s → k ≤ writers n s → (t : System) × Run m s k t
  unfolding need permits
  run_to s zero w le = (s, stay)
  run_to s (suc k) w le =
      let (t, r) = run_to s k w (omega arith) in
      let (w', e) = run-Waiting s t k w r in
      let (i, lt, h) = find_writer n t {k = writers n s - suc k} (omega (arith, e)) in
      let is = writing_lem (t i) h in
      (
        put t i outside,
        more i outside nothing r (λ same. absurd (cc (sym is ∙ (ap t same ∙ w'.is_queued))))
            (rw is refl) (λ j ne. refl),
      )

  -- While process `m` is queued for maintenance, every call of another process ends one write: after
  -- any `k` such calls there are exactly `k` writers fewer, so no new writer or maintainer gets past
  -- the gate, and no more calls are possible than there were writers.
  pub run-writers : (s t : System) (k : ℕ) → Waiting s → Run m s k t → k + writers n t ≡ writers n s
  run-writers s t k w r = (run-Waiting s t k w r).1

  -- A queued maintainer gets in: whatever calls the other processes have made since, they can make
  -- exactly as many more as there are writers left, and then the exclusive main lock is granted.
  pub maintainer_enters :
      (s t : System) (k : ℕ)
      → Waiting s
      → Run m s k t
      → (u : System) × Run m t (writers n s - k) u × Step u (put u m maintaining)
  maintainer_enters s t k w r =
      let (w', e) = run-Waiting s t k w r in
      let (u, r') = run_to t (writers n s - k) w' (omega (arith, e)) in
      let (w'', e') = run-Waiting t u (writers n s - k) w' r' in
      (u, r', granted u w'' (omega (arith, e, e')))
