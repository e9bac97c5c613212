-- ===== src/Orm/Unique.antt =====
-- Tables in which every row has a text of its own, such as the code of a plan or the e-mail address
-- of a member.
use mathlib.Core.Option.{some-injective}
use kigali_pack.Base.{ℕ, ◌≡◌, ◌≢◌, refl, sym, ap, ◌∙◌, true, none, some, arith, String, Bool}
use native.Mathlib.Decide.{ℕ_discrete}
use kigali_pack.Orm.{Keyed, Repository, row-insert_self, row-insert_ne, row-save_ne}

module _ {E : Type 0} {k : Keyed E} (r : Repository k) (field : E → String)
    (keep : (i : ℕ) (e : E) → field (k.set_key i e) ≡ field e) where
  abbrev pub Unique : r.Rows → Type 0
  Unique t =
      (i j : ℕ) (p q : E) → r.row t i ≡ some p → r.row t j ≡ some q → field p ≡ field q → i ≡ j

  -- Every row of `t'` was one of `t`, under the same key and with the same code.
  abbrev Shrinks : r.Rows → r.Rows → Type 0
  Shrinks t t' =
      (i : ℕ) (p : E) → r.row t' i ≡ some p → (q : E) × (r.row t i ≡ some q) × (field q ≡ field p)

  pub Shrinks-Unique : (t t' : r.Rows) → Shrinks t t' → Unique t → Unique t'
  Shrinks-Unique t t' before unique i j p q at_p at_q same =
      let (p0, row_p, code_p) = before i p at_p in
      let (q0, row_q, code_q) = before j q at_q in
      unique i j p0 q0 row_p row_q (code_p ∙ same ∙ sym code_q)

  pub save-Shrinks :
      (old new : E) (t : r.Rows)
      → r.row t (k.key old) ≡ some old
      → k.key new ≡ k.key old
      → field new ≡ field old
      → Shrinks t (r.save new t)
  save-Shrinks old new t row key code i p at_p = elim (ℕ_discrete (k.key new) i) [
    | yes here ↦
        let is_new : new ≡ p = ground (arith, r.row-save new t i) in
        (old, ap (r.row t) (sym here ∙ key) ∙ row, sym code ∙ ap field is_new)
    | no other ↦ (p, ground (arith, r.row-save new t i), refl)
  ]

  pub remove-Shrinks : (old : E) (t : r.Rows) → Shrinks t (r.remove old t)
  remove-Shrinks old t i p at_p = (p, ground (arith, r.row-remove old t i), refl)

  -- What is stored under the key of an inserted plan is that plan.
  inserted_code :
      (new : E) (t : r.Rows) (i : ℕ) {p : E}
      → k.key (r.insert new t).0 ≡ i
      → r.row (r.insert new t).1 i ≡ some p
      → field p ≡ field new
  inserted_code new t i {p} here at_p =
      let e = (r.insert new t).0 in
      let is_p : e ≡ p =
        some-injective _ _
          (sym (row-insert_self r new t) ∙ ap (r.row (r.insert new t).1) here ∙ at_p) in
      sym (ap field is_p) ∙ ap field (r.insert-same new t) ∙ keep (k.key (r.insert new t).0) new

  -- No other row has the text, if a search that would find it finds nothing.
  old_code :
      (new : E) (t : r.Rows) (search : E → Bool) (j : ℕ) {q : E} {A : Type 0}
      → r.find_one search t ≡ none
      → ((e : E) → field e ≡ field new → search e ≡ true)
      → k.key (r.insert new t).0 ≢ j
      → r.row (r.insert new t).1 j ≡ some q
      → field q ≡ field new
      → A
  old_code new t search j {q} free finds other at_q same =
      let missed = r.find_one-none search t j free (sym (row-insert_ne r new t j other) ∙ at_q) in
      let fits = finds q same in cc

  pub insert-Unique :
      (new : E) (t : r.Rows) (search : E → Bool)
      → r.find_one search t ≡ none
      → ((e : E) → field e ≡ field new → search e ≡ true)
      → Unique t
      → Unique (r.insert new t).1
  insert-Unique new t search free finds unique i j p q at_p at_q same =
      let e = (r.insert new t).0 in
      elim (ℕ_discrete (k.key e) i) [
        | yes a ↦ elim (ℕ_discrete (k.key e) j) [
          | yes b ↦ sym a ∙ b
          | no b ↦
              old_code new t search j free finds b at_q (sym same ∙ inserted_code new t i a at_p)
        ]
        | no a ↦ elim (ℕ_discrete (k.key e) j) [
          | yes b ↦ old_code new t search i free finds a at_p (same ∙ inserted_code new t j b at_q)
          | no b ↦
              unique i j p q (sym (row-insert_ne r new t i a) ∙ at_p)
                (sym (row-insert_ne r new t j b) ∙ at_q) same
        ]
      ]

  -- What is stored under the key of a saved row is that row.
  saved_row :
      (new : E) (t : r.Rows) (i : ℕ) {p : E}
      → k.key new ≡ i
      → r.row (r.save new t) i ≡ some p
      → new ≡ p
  saved_row new t i here at_p = ground (arith, r.row-save new t i)

  -- A row that is saved with a text that no other row has.
  pub save-Unique :
      (new : E) (t : r.Rows)
      → ((j : ℕ) (q : E) → r.row t j ≡ some q → field q ≡ field new → j ≡ k.key new)
      → Unique t
      → Unique (r.save new t)
  save-Unique new t own unique i j p q at_p at_q same = elim (ℕ_discrete (k.key new) i) [
    | yes a ↦ elim (ℕ_discrete (k.key new) j) [
      | yes b ↦ sym a ∙ b
      | no b ↦
          sym a
          ∙ sym (
              own j q (sym (row-save_ne r new t j b) ∙ at_q)
                (sym same ∙ ap field (sym (saved_row new t i a at_p))))
    ]
    | no a ↦ elim (ℕ_discrete (k.key new) j) [
      | yes b ↦
          own i p (sym (row-save_ne r new t i a) ∙ at_p)
            (same ∙ ap field (sym (saved_row new t j b at_q)))
          ∙ b
      | no b ↦
          unique i j p q (sym (row-save_ne r new t i a) ∙ at_p)
            (sym (row-save_ne r new t j b) ∙ at_q) same
    ]
  ]
