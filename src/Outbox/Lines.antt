-- ===== src/Outbox/Lines.antt =====
-- `_iter_complete_lines` of src/milhouse/outbox/reader.py, and what it needs of `bytes`.
use milhouse_oss.Prelude.{
  ℕ, zero, suc, ◌≡◌, refl, inl, inr, List, [], ◌∷◌, ◌++◌, map, arith, ltb, ◌==◌, if◌then◌else◌,
  Bool-cases,
}

abbrev pub Bytes : Type 0
Bytes = List ℕ

abbrev pub lf : ℕ
lf = 10

-- `content[:n]` and `content[n:]`
unfoldable pub take : ℕ → Bytes → Bytes
take zero s = []
take (suc n) [] = []
take (suc n) (b ∷ s) = b ∷ take n s

unfoldable pub drop : ℕ → Bytes → Bytes
drop zero s = s
drop (suc n) [] = []
drop (suc n) (b ∷ s) = drop n s

-- `content.rfind(LF) + 1`: the end of the last complete line, 0 where there is none.
unfoldable pub complete_end : Bytes → ℕ
complete_end [] = 0
complete_end (b ∷ s) =
    let rest = complete_end s in if ltb 0 rest then suc rest else if b == lf then 1 else 0

abbrev pub cons_head : ℕ → List Bytes → List Bytes
cons_head b [] = (b ∷ []) ∷ []
cons_head b (l ∷ ls) = (b ∷ l) ∷ ls

-- `region.split(LF)`
unfoldable pub split : Bytes → List Bytes
split [] = [] ∷ []
split (b ∷ s) = let rest = split s in if b == lf then [] ∷ rest else cons_head b rest

-- `parts[:-1]`
unfoldable pub drop_last : List Bytes → List Bytes
drop_last [] = []
drop_last (l ∷ []) = []
drop_last (l ∷ m ∷ ls) = l ∷ drop_last (m ∷ ls)

abbrev pub end_line : Bytes → Bytes
end_line part = part ++ lf ∷ []

unfoldable pub iter_complete_lines : Bytes → List Bytes
unfolding split drop_last
iter_complete_lines [] = []
iter_complete_lines (b ∷ s) = map end_line (drop_last (split (b ∷ s)))

unfoldable pub join : List Bytes → Bytes
join [] = []
join (l ∷ ls) = l ++ join ls

-- Empty, or ends with LF.
abbrev pub IsComplete : Bytes → Type 0
IsComplete [] = Unit
IsComplete (b ∷ []) = b ≡ lf
IsComplete (b ∷ c ∷ s) = IsComplete (c ∷ s)

abbrev push : ℕ → List Bytes → List Bytes
push b [] = []
push b (l ∷ ls) = (b ∷ l) ∷ ls

split_shape : (s : Bytes) → (l : Bytes) × (ls : List Bytes) × (split s ≡ l ∷ ls)
unfolding split
split_shape [] = ([], [], refl)
split_shape (b ∷ s) =
    let (l, ls, e) = split_shape s in
    elim (Bool-cases (b == lf)) [
      | inl h ↦ ([], split s, ground (arith, h))
      | inr h ↦ (b ∷ l, ls, ground (arith, h, e))
    ]

lines_lem : (s : Bytes) → iter_complete_lines s ≡ map end_line (drop_last (split s))
unfolding iter_complete_lines split drop_last
lines_lem [] = refl
lines_lem (b ∷ s) = refl

extend_first :
    (b : ℕ) (l : Bytes) (ls : List Bytes)
    → map end_line (drop_last ((b ∷ l) ∷ ls)) ≡ push b (map end_line (drop_last (l ∷ ls)))
unfolding drop_last
extend_first b l [] = refl
extend_first b l (m ∷ ms) = refl

new_first :
    (l : Bytes) (ls : List Bytes)
    → map end_line (drop_last ([] ∷ l ∷ ls)) ≡ (lf ∷ []) ∷ map end_line (drop_last (l ∷ ls))
unfolding drop_last
new_first l ls = refl

-- The lines of a file, byte by byte.
pub lines_cons :
    (b : ℕ) (s : Bytes)
    → iter_complete_lines (b ∷ s)
      ≡ (if b == lf then (lf ∷ []) ∷ iter_complete_lines s else push b (iter_complete_lines s))
unfolding iter_complete_lines split
lines_cons b s =
    let (l, ls, e) = split_shape s in
    ground (arith, lines_lem s, e, new_first l ls, extend_first b l ls)

pub lines_nil : iter_complete_lines [] ≡ []
unfolding iter_complete_lines
lines_nil = refl

lines-IsComplete :
    (b : ℕ) (s : Bytes)
    → IsComplete (b ∷ s)
    → (l : Bytes) × (ls : List Bytes) × (iter_complete_lines (b ∷ s) ≡ l ∷ ls)
lines-IsComplete b [] h = (lf ∷ [], [], ground (arith, lines_cons b [], lines_nil))
lines-IsComplete b (c ∷ s) h =
    let (l, ls, e) = lines-IsComplete c s h in
    elim (Bool-cases (b == lf)) [
      | inl k ↦ (lf ∷ [], iter_complete_lines (c ∷ s), ground (arith, k, lines_cons b (c ∷ s)))
      | inr k ↦ (b ∷ l, ls, ground (arith, k, e, lines_cons b (c ∷ s)))
    ]

-- Lines can be taken in two portions, cut at the end of a line.
pub lines-append :
    (r s : Bytes)
    → IsComplete r
    → iter_complete_lines (r ++ s) ≡ iter_complete_lines r ++ iter_complete_lines s
lines-append [] s h = cc lines_nil
lines-append (b ∷ []) s h = ground (arith, lines_cons b s, lines_cons b [], lines_nil)
lines-append (b ∷ c ∷ r) s h =
    let (l, ls, e) = lines-IsComplete c r h in
    ground (arith, e, lines_cons b (c ∷ r), lines_cons b ((c ∷ r) ++ s), lines-append (c ∷ r) s h)

-- The complete lines are the whole of a complete region.
pub join-lines : (r : Bytes) → IsComplete r → join (iter_complete_lines r) ≡ r
unfolding join
join-lines [] h = rw lines_nil refl
join-lines (b ∷ []) h = ground (arith, lines_cons b [], lines_nil)
join-lines (b ∷ c ∷ r) h =
    let (l, ls, e) = lines-IsComplete c r h in
    ground (arith, e, lines_cons b (c ∷ r), join-lines (c ∷ r) h)
