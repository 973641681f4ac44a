-- ===== src/Core/Canonical/Order.antt =====
-- The order in which the members of an object are given does not matter.
use milhouse_oss.Prelude.{
  ℕ, ◌+◌, ◌≡◌, ◌∙◌, sym, refl, ap, ◌⊎◌, inl, inr, Bool-cases, true, false, Option, none, some, List,
  [], ◌∷◌, arith, Text, text_eq, text_eq_iff, text_eq_refl, text_lt,
}
use milhouse_oss.Core.Canonical.{
  Json, Fields, field, ◌>>=◌, larger, insert_member, nodes, nodes_of, depth, depth_of,
  normalize_string, encode_value, encode_members,
}

text_lt_irrefl : (a : Text) → text_lt a a ≡ false
unfolding text_lt
text_lt_irrefl [] = refl
text_lt_irrefl (x ∷ a) = ground (arith, text_lt_irrefl a)

text_lt_trans : (a b c : Text) → text_lt a b ≡ true → text_lt b c ≡ true → text_lt a c ≡ true
unfolding text_lt
text_lt_trans [] [] c h k = absurd (cc h)
text_lt_trans [] (y ∷ b) [] h k = absurd (cc k)
text_lt_trans [] (y ∷ b) (z ∷ c) h k = refl
text_lt_trans (x ∷ a) [] c h k = absurd (cc h)
text_lt_trans (x ∷ a) (y ∷ b) [] h k = absurd (cc k)
text_lt_trans (x ∷ a) (y ∷ b) (z ∷ c) h k = ground (arith, text_lt_trans a b c)

text_lt_total : (a b : Text) → text_lt a b ≡ false → text_lt b a ≡ false → a ≡ b
unfolding text_lt
text_lt_total [] [] h k = refl
text_lt_total [] (y ∷ b) h k = absurd (cc h)
text_lt_total (x ∷ a) [] h k = absurd (cc k)
text_lt_total (x ∷ a) (y ∷ b) h k = ground (arith, text_lt_total a b)

record Less (a b : Text) : Type 0 where
  lt : text_lt a b ≡ true
  gt : text_lt b a ≡ false
  ne : text_eq a b ≡ false
  en : text_eq b a ≡ false

not_equal : (a b : Text) → text_lt a b ≡ true → text_eq a b ≡ false
not_equal a b h = elim (Bool-cases (text_eq a b)) [
  | inr n ↦ n
  | inl e ↦
      let same : a ≡ b = (text_eq_iff a b).0 e in
      let h' : text_lt b b ≡ true = ap (λ x. text_lt x b) (sym same) ∙ h in
      absurd (cc (text_lt_irrefl b, h'))
]

text_eq_sym : (a b : Text) → text_eq a b ≡ false → text_eq b a ≡ false
text_eq_sym a b h = ground (arith, text_eq_iff a b, text_eq_iff b a)

lt-Less : (a b : Text) → text_lt a b ≡ true → Less a b
lt-Less a b h = elim (Bool-cases (text_lt b a)) [
  | inl k ↦ absurd (cc (text_lt_trans a b a h k, text_lt_irrefl a))
  | inr k ↦ record { lt = h; gt = k; ne = not_equal a b h; en = text_eq_sym a b (not_equal a b h) }
]

compared : (a b : Text) → (a ≡ b) ⊎ (Less a b ⊎ Less b a)
compared a b = elim (Bool-cases (text_lt a b)) [
  | inl h ↦ inr (inl (lt-Less a b h))
  | inr h ↦ elim (Bool-cases (text_lt b a)) [
    | inl k ↦ inr (inr (lt-Less b a k))
    | inr k ↦ inl (text_lt_total a b h k)
  ]
]

abbrev Members : Type 0
Members = List (Text × Text)

abbrev behind : Text × Text → Members → Option Members
behind m r = some (m ∷ r)

-- A member goes in behind a smaller key.
insert_behind :
    (k v x vx : Text) (o : Option Members)
    → Less k x
    → ((o >>= behind (k, v)) >>= insert_member x vx)
      ≡ ((o >>= insert_member x vx) >>= behind (k, v))
unfolding insert_member
insert_behind k v x vx none h = refl
insert_behind k v x vx (some r) h = rw (h.en, h.gt) refl

insert_twice : (a va vb : Text) (l : Members) → (insert_member a va l >>= insert_member a vb) ≡ none
unfolding insert_member
insert_twice a va vb [] = rw (text_eq_refl a) refl
insert_twice a va vb ((k, v) ∷ l) = elim (compared a k) [
  | inl e ↦ ground (arith, text_eq_iff a k)
  | inr (inl h) ↦ rw (h.ne, h.lt, text_eq_refl a) refl
  | inr (inr h) ↦
      rw (h.en, h.gt)
        (insert_behind k v a vb (insert_member a va l) h
          ∙ ap (λ o. o >>= behind (k, v)) (insert_twice a va vb l))
]

insert_before :
    (k v x vx : Text) (o : Option Members)
    → Less x k
    → ((o >>= behind (k, v)) >>= insert_member x vx) ≡ ((o >>= behind (k, v)) >>= behind (x, vx))
unfolding insert_member
insert_before k v x vx none h = refl
insert_before k v x vx (some r) h = rw (h.ne, h.lt) refl

insert_equal :
    (k v x vx : Text) (o : Option Members)
    → text_eq x k ≡ true
    → ((o >>= behind (k, v)) >>= insert_member x vx) ≡ none
unfolding insert_member
insert_equal k v x vx none h = refl
insert_equal k v x vx (some r) h = rw h refl

-- Of two members the smaller may enter first or last.
insert_ordered :
    (a b va vb : Text) (l : Members)
    → Less a b
    → (insert_member a va l >>= insert_member b vb) ≡ (insert_member b vb l >>= insert_member a va)
unfolding insert_member
insert_ordered a b va vb [] h = rw (h.ne, h.en, h.lt, h.gt) refl
insert_ordered a b va vb ((k, v) ∷ l) h = elim (compared a k) [
  | inl e ↦
      let same : text_eq a k ≡ true = (text_eq_iff a k).1 e in
      let q = lt-Less k b (ap (λ x. text_lt x b) (sym e) ∙ h.lt) in
      rw (same, q.en, q.gt) (sym (insert_equal k v a va (insert_member b vb l) same))
  | inr (inl p) ↦ elim (compared b k) [
    | inl e ↦ rw (p.ne, p.lt, h.en, h.gt, (text_eq_iff b k).1 e) refl
    | inr (inl q) ↦ rw (p.ne, p.lt, h.en, h.gt, q.ne, q.lt, h.ne, h.lt) refl
    | inr (inr q) ↦
        rw (p.ne, p.lt, h.en, h.gt, q.en, q.gt)
          (sym (insert_before k v a va (insert_member b vb l) p))
  ]
  | inr (inr p) ↦
      let q = lt-Less k b (text_lt_trans k a b p.lt h.lt) in
      rw (p.en, p.gt, q.en, q.gt)
        (insert_behind k v b vb (insert_member a va l) q
          ∙ (ap (λ o. o >>= behind (k, v)) (insert_ordered a b va vb l h)
              ∙ sym (insert_behind k v a va (insert_member b vb l) p)))
]

-- Two members enter a list in either order, or in neither.
insert_commutes :
    (a b va vb : Text) (l : Members)
    → (insert_member a va l >>= insert_member b vb) ≡ (insert_member b vb l >>= insert_member a va)
insert_commutes a b va vb l = elim (compared a b) [
  | inl e ↦ rw e (insert_twice b va vb l ∙ sym (insert_twice b vb va l))
  | inr (inl h) ↦ insert_ordered a b va vb l h
  | inr (inr h) ↦ sym (insert_ordered b a vb va l h)
]

-- Members in another order.
pub data Reordered : Fields → Fields → Type 0 where
  same : {fs : Fields} → Reordered fs fs
  kept :
      {k : Text} {j : Json} {fs gs : Fields}
      → Reordered fs gs
      → Reordered (field k j fs) (field k j gs)
  swapped :
      {k l : Text} {i j : Json} {fs : Fields}
      → Reordered (field k i (field l j fs)) (field l j (field k i fs))
  followed : {fs gs hs : Fields} → Reordered fs gs → Reordered gs hs → Reordered fs hs

pub nodes-Reordered : {fs gs : Fields} → Reordered fs gs → nodes_of fs ≡ nodes_of gs
unfolding nodes_of nodes
nodes-Reordered same = refl
nodes-Reordered (kept {j = j} h) = ap (λ n. nodes j + n) (nodes-Reordered h)
nodes-Reordered (swapped {i = i} {j = j} {fs = fs}) = omega arith
nodes-Reordered (followed h k) = nodes-Reordered h ∙ nodes-Reordered k

larger_swap : (a b c : ℕ) → larger a (larger b c) ≡ larger b (larger a c)
larger_swap a b c = ground arith

pub depth-Reordered : {fs gs : Fields} → Reordered fs gs → depth_of fs ≡ depth_of gs
unfolding depth_of depth
depth-Reordered same = refl
depth-Reordered (kept {j = j} h) = ap (larger (depth j)) (depth-Reordered h)
depth-Reordered (swapped {i = i} {j = j} {fs = fs}) = larger_swap (depth i) (depth j) (depth_of fs)
depth-Reordered (followed h k) = depth-Reordered h ∙ depth-Reordered k

module _ (nfc : Text → Text) (decimal : ℕ → Text) where
  insert_encoded :
      (ka kb va vb : Option Text) (l : Option Members)
      → (ka >>= λ a.
          va >>= λ x. (kb >>= λ b. vb >>= λ y. l >>= insert_member b y) >>= insert_member a x)
        ≡ (kb >>= λ b.
            vb >>= λ y. (ka >>= λ a. va >>= λ x. l >>= insert_member a x) >>= insert_member b y)
  insert_encoded none none va vb l = refl
  insert_encoded none (some b) va none l = refl
  insert_encoded none (some b) va (some y) l = refl
  insert_encoded (some a) none none vb l = refl
  insert_encoded (some a) none (some x) vb l = refl
  insert_encoded (some a) (some b) none none l = refl
  insert_encoded (some a) (some b) none (some y) l = refl
  insert_encoded (some a) (some b) (some x) none l = refl
  insert_encoded (some a) (some b) (some x) (some y) none = refl
  insert_encoded (some a) (some b) (some x) (some y) (some l) = insert_commutes b a y x l

  pub members-Reordered :
      {fs gs : Fields}
      → Reordered fs gs
      → encode_members nfc decimal fs ≡ encode_members nfc decimal gs
  unfolding encode_members
  members-Reordered same = refl
  members-Reordered (kept {k = k} {j = j} h) = rw (members-Reordered h) refl
  members-Reordered (swapped {k = k} {l = l} {i = i} {j = j} {fs = fs}) =
      insert_encoded (normalize_string nfc decimal k) (normalize_string nfc decimal l)
        (encode_value nfc decimal i) (encode_value nfc decimal j) (encode_members nfc decimal fs)
  members-Reordered (followed h k) = members-Reordered h ∙ members-Reordered k
