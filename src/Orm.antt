-- ===== src/Orm.antt =====
-- The TypeORM repositories that the services call, as an interface: a table is known by the row
-- under each primary key, and each operation by what its documentation says of the rows.
-- Primary keys are uuids that the program only compares and passes on; here they are numbers.
pub mod Memory
pub mod Unique
use mathlib.Core.Option
use mathlib.Core.List.{Memᴰ}
use kigali_pack.Base.{
  ℕ, ◌≡◌, ◌≢◌, sym, ◌∙◌, subst, Bool, true, false, Option, none, some, List, arith, ◌==◌,
  if◌then◌else◌, ap, Option-cases, inl, inr,
}
use native.Mathlib.Decide.{ℕ_discrete}

-- The primary key of an entity.
pub record Keyed (E : Type 0) : Type 0 where
  pub key : E → ℕ
  pub set_key : ℕ → E → E
  pub key-set_key : (i : ℕ) (e : E) → key (set_key i e) ≡ i
  pub set_key-key : (e : E) → set_key (key e) e ≡ e

-- `find_one where` is `findOne`: which of several fitting rows it takes, and what an `order` makes
-- of that, is left open; `find where` is `find`, in whatever order. `insert` is `save` of an entity
-- that `create` has made, which is given its key; `save` writes the row of an entity that was
-- loaded; `update where change` is `update(where, change)`.
pub record Repository {E : Type 0} (k : Keyed E) : Type 1 where
  pub Rows : Type 0
  pub row : Rows → ℕ → Option E
  pub find_one : (E → Bool) → Rows → Option E
  pub find : (E → Bool) → Rows → List E
  pub save : E → Rows → Rows
  pub insert : E → Rows → E × Rows
  pub update : (E → Bool) → (E → E) → Rows → Rows
  pub remove : E → Rows → Rows
  pub key-row : (t : Rows) (i : ℕ) {e : E} → row t i ≡ some e → k.key e ≡ i
  pub find_one-row :
      (p : E → Bool) (t : Rows) {e : E} → find_one p t ≡ some e → row t (k.key e) ≡ some e
  pub find_one-fits : (p : E → Bool) (t : Rows) {e : E} → find_one p t ≡ some e → p e ≡ true
  pub find_one-none :
      (p : E → Bool) (t : Rows) (i : ℕ) {e : E}
      → find_one p t ≡ none
      → row t i ≡ some e
      → p e ≡ false
  pub find-row :
      (p : E → Bool) (t : Rows) (e : E)
      → Memᴰ e (find p t)
      → (row t (k.key e) ≡ some e) × (p e ≡ true)
  pub find-all :
      (p : E → Bool) (t : Rows) (i : ℕ) {e : E} → row t i ≡ some e → p e ≡ true → Memᴰ e (find p t)
  pub row-save :
      (e : E) (t : Rows) (i : ℕ) → row (save e t) i ≡ (if k.key e == i then some e else row t i)
  pub insert-new : (e : E) (t : Rows) → row t (k.key (insert e t).0) ≡ none
  pub insert-same : (e : E) (t : Rows) → (insert e t).0 ≡ k.set_key (k.key (insert e t).0) e
  pub row-insert :
      (e : E) (t : Rows) (i : ℕ)
      → row (insert e t).1 i ≡ (if k.key (insert e t).0 == i then some (insert e t).0 else row t i)
  pub row-update :
      (p : E → Bool) (f : E → E)
      → ((e : E) → k.key (f e) ≡ k.key e)
      → (t : Rows) (i : ℕ)
      → row (update p f t) i ≡ Option.map (λ e. if p e then f e else e) (row t i)
  pub row-remove :
      (e : E) (t : Rows) (i : ℕ) → row (remove e t) i ≡ (if k.key e == i then none else row t i)

module _ {E : Type 0} {k : Keyed E} (r : Repository k) where
  -- A row that is looked up by its key is the row under that key.
  pub find_one-key :
      (i : ℕ) (t : r.Rows) {e : E}
      → r.find_one (λ x. k.key x == i) t ≡ some e
      → (k.key e ≡ i) × (r.row t i ≡ some e)
  find_one-key i t {e} h =
      let same : k.key e ≡ i = ground (arith, r.find_one-fits (λ x. k.key x == i) t h) in
      (same, subst (λ j. r.row t j ≡ some e) same (r.find_one-row (λ x. k.key x == i) t h))

  pub row-save_self : (e : E) (t : r.Rows) → r.row (r.save e t) (k.key e) ≡ some e
  row-save_self e t = ground (arith, r.row-save e t (k.key e))

  pub row-save_ne : (e : E) (t : r.Rows) (i : ℕ) → k.key e ≢ i → r.row (r.save e t) i ≡ r.row t i
  row-save_ne e t i h = ground (arith, r.row-save e t i)

  pub row-insert_self :
      (e : E) (t : r.Rows) → let (e', t') = r.insert e t in r.row t' (k.key e') ≡ some e'
  row-insert_self e t = ground (arith, r.row-insert e t (k.key (r.insert e t).0))

  pub row-insert_ne :
      (e : E) (t : r.Rows) (i : ℕ)
      → k.key (r.insert e t).0 ≢ i
      → r.row (r.insert e t).1 i ≡ r.row t i
  row-insert_ne e t i h = ground (arith, r.row-insert e t i)

  -- A row that is there keeps its place when another is inserted.
  pub row-insert_old :
      (e : E) (t : r.Rows) (i : ℕ) {x : E}
      → r.row t i ≡ some x
      → (k.key (r.insert e t).0 ≢ i) × (r.row (r.insert e t).1 i ≡ some x)
  row-insert_old e t i {x} h =
      let other : k.key (r.insert e t).0 ≢ i =
        λ same. cc (sym (subst (λ j. r.row t j ≡ none) same (r.insert-new e t)) ∙ h) in
      (other, row-insert_ne e t i other ∙ h)

  -- An inserted row is found by what no row fitted before.
  pub find_one-insert :
      (p : E → Bool) (e : E) (t : r.Rows)
      → r.find_one p t ≡ none
      → p (r.insert e t).0 ≡ true
      → r.find_one p (r.insert e t).1 ≡ some (r.insert e t).0
  find_one-insert p e t free fits =
      let (e', t') = r.insert e t in
      elim (Option-cases (r.find_one p t')) [
        | inl gone ↦ cc (r.find_one-none p t' (k.key e') gone (row-insert_self e t))
        | inr (q, h) ↦
            let row = r.find_one-row p t' h in
            elim (ℕ_discrete (k.key e') (k.key q)) [
              | yes same ↦ h ∙ sym row ∙ sym (ap (r.row t') same) ∙ row-insert_self e t
              | no other ↦
                  let old : r.row t (k.key q) ≡ some q =
                    sym (row-insert_ne e t (k.key q) other) ∙ row in
                  let missed = r.find_one-none p t (k.key q) free old in
                  let fitted = r.find_one-fits p t' h in cc
            ]
      ]
