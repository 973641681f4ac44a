-- ===== src/State/Table.antt =====
-- A SQL table as the list of its rows, and the statements that the control plane runs. A `WHERE` on
-- the primary key is a test of rows.
use milhouse_oss.Prelude.{
  ℕ, suc, ◌≡◌, refl, Bool, true, false, Option, none, some, List, [], ◌∷◌, ◌++◌, arith,
  if◌then◌else◌,
}

module _ {R : Type 0} where
  -- `SELECT ... WHERE key`, the row if there is one.
  unfoldable pub find : (R → Bool) → List R → Option R
  find p [] = none
  find p (r ∷ t) = if p r then some r else find p t

  -- `INSERT ... ON CONFLICT(key) DO UPDATE SET` every other column.
  unfoldable pub upsert : (R → Bool) → R → List R → List R
  upsert p new [] = new ∷ []
  upsert p new (r ∷ t) = if p r then new ∷ t else r ∷ upsert p new t

  -- `UPDATE ... SET ... WHERE key`
  unfoldable pub update : (R → Bool) → (R → R) → List R → List R
  update p f [] = []
  update p f (r ∷ t) = (if p r then f r else r) ∷ update p f t

  -- `DELETE ... WHERE key`
  unfoldable pub delete : (R → Bool) → List R → List R
  delete p [] = []
  delete p (r ∷ t) = let rest = delete p t in if p r then rest else r ∷ rest

  -- `cursor.rowcount` of an update or delete.
  unfoldable pub row_count : (R → Bool) → List R → ℕ
  row_count p [] = 0
  row_count p (r ∷ t) = let rest = row_count p t in if p r then suc rest else rest

  pub find-IsKey : (p : R → Bool) (t : List R) {r : R} → find p t ≡ some r → p r ≡ true
  unfolding find
  find-IsKey p [] {r} h = ground arith
  find-IsKey p (x ∷ t) {r} h = ground (arith, find-IsKey p t {r = r})

  pub find-upsert_self :
      (p : R → Bool) (new : R) (t : List R) → p new ≡ true → find p (upsert p new t) ≡ some new
  unfolding find upsert
  find-upsert_self p new [] h = ground arith
  find-upsert_self p new (r ∷ t) h = ground (arith, find-upsert_self p new t h)

  pub find-delete_self : (p : R → Bool) (t : List R) → find p (delete p t) ≡ none
  unfolding find delete
  find-delete_self p [] = refl
  find-delete_self p (r ∷ t) = ground (arith, find-delete_self p t)

  pub find-update_self :
      (p : R → Bool) (f : R → R) (t : List R) {r : R}
      → ((x : R) → p x ≡ true → p (f x) ≡ true)
      → find p t ≡ some r
      → find p (update p f t) ≡ some (f r)
  unfolding find update
  find-update_self p f [] {r} keep h = ground arith
  find-update_self p f (x ∷ t) {r} keep h =
      ground (arith, keep x, find-update_self p f t {r = r} keep)

  abbrev pub updated : (R → Bool) → (R → R) → Option R → Option R
  updated q f none = none
  updated q f (some r) = some (if q r then f r else r)

  -- A lookup sees an update that leaves its key alone.
  pub find-update :
      (p q : R → Bool) (f : R → R) (t : List R)
      → ((x : R) → p (f x) ≡ p x)
      → find p (update q f t) ≡ updated q f (find p t)
  unfolding find update
  find-update p q f [] keep = refl
  find-update p q f (x ∷ t) keep = ground (arith, keep x, find-update p q f t keep)

  pub find-update_away :
      (p : R → Bool) (f : R → R) (t : List R)
      → ((x : R) → p (f x) ≡ false)
      → find p (update p f t) ≡ none
  unfolding find update
  find-update_away p f [] away = refl
  find-update_away p f (r ∷ t) away = ground (arith, away r, find-update_away p f t away)

  pub find-append_new :
      (p : R → Bool) (new : R) (t : List R)
      → find p t ≡ none
      → p new ≡ true
      → find p (t ++ new ∷ []) ≡ some new
  unfolding find
  find-append_new p new [] h k = ground arith
  find-append_new p new (r ∷ t) h k = ground (arith, find-append_new p new t)

  -- Rows of another key are left alone.
  module _ (p q : R → Bool) (apart : (x : R) → p x ≡ true → q x ≡ false) where
    pub find-upsert_ne : (new : R) (t : List R) → p new ≡ true → find q (upsert p new t) ≡ find q t
    unfolding find upsert
    find-upsert_ne new [] h = ground (arith, apart new)
    find-upsert_ne new (r ∷ t) h = ground (arith, apart new, apart r, find-upsert_ne new t h)

    pub find-delete_ne : (t : List R) → find q (delete p t) ≡ find q t
    unfolding find delete
    find-delete_ne [] = refl
    find-delete_ne (r ∷ t) = ground (arith, apart r, find-delete_ne t)

    pub find-update_ne :
        (f : R → R) (t : List R)
        → ((x : R) → p x ≡ true → q (f x) ≡ false)
        → find q (update p f t) ≡ find q t
    unfolding find update
    find-update_ne f [] keep = refl
    find-update_ne f (r ∷ t) keep = ground (arith, apart r, keep r, find-update_ne f t keep)
