-- ===== src/Orm/Memory.antt =====
-- A repository in memory: it shows that the interface can be met, and the tests run on it.
use mathlib.Core.Option
use mathlib.Core.List.{Memᴰ}
use mathlib.Core.List.Memᴰ
use mathlib.Core.Option.{some-injective}
use native.Mathlib.Decide.{ℕ_discrete}
use kigali_pack.Base.{
  ℕ, zero, suc, ◌+◌, ◌<◌, ◌≡◌, Bool, true, false, Option, none, some, arith, ltb, ◌==◌, List, [],
  ◌∷◌, if◌then◌else◌, Bool-cases, Option-cases, inl, inr, ◌⊎◌, refl, sym, ap, subst, ◌∙◌,
}
use kigali_pack.Orm.{Keyed, Repository}

module _ {E : Type 0} (k : Keyed E) where
  pub record Table : Type 0 where
    pub next : ℕ
    pub at : ℕ → Option E

  abbrev pub row : Table → ℕ → Option E
  row t i = if ltb i t.next then Option.map (k.set_key i) (t.at i) else none

  fits : (E → Bool) → Option E → Bool
  fits p none = false
  fits p (some e) = p e

  -- The first fitting row among the keys below `n`.
  search_below : ℕ → (E → Bool) → Table → Option E
  unfolding fits
  search_below zero p t = none
  search_below (suc n) p t =
      let rest = search_below n p t in if fits p (row t n) then row t n else rest

  keep : (E → Bool) → Option E → List E → List E
  keep p none rest = rest
  keep p (some e) rest = if p e then e ∷ rest else rest

  -- The fitting rows among the keys below `n`.
  find_below : ℕ → (E → Bool) → Table → List E
  find_below zero p t = []
  find_below (suc n) p t = keep p (row t n) (find_below n p t)

  abbrev max : ℕ → ℕ → ℕ
  max a b = if ltb a b then b else a

  abbrev save : E → Table → Table
  save e t = record {
    next = max t.next (k.key e + 1);
    at = λ i. if k.key e == i then some e else row t i;
  }

  abbrev insert : E → Table → E × Table
  insert e t = let e' = k.set_key t.next e in (e', save e' t)

  abbrev update : (E → Bool) → (E → E) → Table → Table
  update p f t = record {
    next = t.next;
    at = λ i. Option.map (λ e. if p e then f e else e) (row t i);
  }

  abbrev remove : E → Table → Table
  remove e t = record { next = t.next; at = λ i. if k.key e == i then none else row t i }

  key-row : (t : Table) (i : ℕ) {e : E} → row t i ≡ some e → k.key e ≡ i
  key-row t i h = elim (Option-cases (t.at i)) [
    | inl gone ↦ ground arith
    | inr (a, at_i) ↦ ground (arith, k.key-set_key i a)
  ]

  -- What is stored under its own key reads back unchanged.
  own_key : (i : ℕ) (e : E) → k.key e ≡ i → k.set_key i e ≡ e
  own_key i e h = rw (← h) (k.set_key-key e)

  search_below-row :
      (n : ℕ) (p : E → Bool) (t : Table) {e : E}
      → search_below n p t ≡ some e
      → row t (k.key e) ≡ some e
  unfolding search_below
  search_below-row zero p t h = cc
  search_below-row (suc n) p t {e} h = elim (Bool-cases (fits p (row t n))) [
    | inl y ↦ let found : row t n ≡ some e = rw y at h in rw (key-row t n found) found
    | inr o ↦ search_below-row n p t (rw o at h)
  ]

  search_below-fits :
      (n : ℕ) (p : E → Bool) (t : Table) {e : E} → search_below n p t ≡ some e → p e ≡ true
  unfolding search_below
  search_below-fits zero p t h = cc
  search_below-fits (suc n) p t {e} h = elim (Bool-cases (fits p (row t n))) [
    | inl y ↦ let found : row t n ≡ some e = rw y at h in rw found at y
    | inr o ↦ search_below-fits n p t (rw o at h)
  ]

  search_below-none :
      (n : ℕ) (p : E → Bool) (t : Table) (i : ℕ) {e : E}
      → i < n
      → search_below n p t ≡ none
      → row t i ≡ some e
      → p e ≡ false
  unfolding search_below
  search_below-none zero p t i l h r = absurd (omega arith)
  search_below-none (suc n) p t i {e} l h r = elim (Bool-cases (fits p (row t n))) [
    | inl y ↦ let gone : row t n ≡ none = rw y at h in cc (rw gone at y)
    | inr o ↦ elim (ℕ_discrete i n) [
      | yes same ↦ let here : row t n ≡ some e = rw same at r in rw here at o
      | no other ↦ search_below-none n p t i (omega arith) (rw o at h) r
    ]
  ]

  keep-cases :
      (p : E → Bool) (o : Option E) (rest : List E) (e : E)
      → Memᴰ e (keep p o rest)
      → ((o ≡ some e) × (p e ≡ true)) ⊎ Memᴰ e rest
  unfolding keep
  keep-cases p none rest e m = inr m
  keep-cases p (some a) rest e m = elim (Bool-cases (p a)) [
    | inl y ↦ elim (Memᴰ.cases_cons (subst (λ b. Memᴰ e (if b then a ∷ rest else rest)) y m)) [
      | inl same ↦ inl (ap some (sym same), ap p same ∙ y)
      | inr later ↦ inr later
    ]
    | inr n ↦ inr (subst (λ b. Memᴰ e (if b then a ∷ rest else rest)) n m)
  ]

  keep_older :
      (p : E → Bool) (o : Option E) (rest : List E) (e : E) → Memᴰ e rest → Memᴰ e (keep p o rest)
  unfolding keep
  keep_older p none rest e m = m
  keep_older p (some a) rest e m = elim (Bool-cases (p a)) [
    | inl y ↦ subst (λ b. Memᴰ e (if b then a ∷ rest else rest)) (sym y) (Memᴰ.tail m)
    | inr n ↦ subst (λ b. Memᴰ e (if b then a ∷ rest else rest)) (sym n) m
  ]

  find_below-row :
      (n : ℕ) (p : E → Bool) (t : Table) (e : E)
      → Memᴰ e (find_below n p t)
      → (row t (k.key e) ≡ some e) × (p e ≡ true)
  unfolding find_below
  find_below-row zero p t e m = absurd (Memᴰ.not-nil m)
  find_below-row (suc n) p t e m = elim (keep-cases p (row t n) (find_below n p t) e m) [
    | inl (at_n, fits) ↦ (rw (key-row t n at_n) at_n, fits)
    | inr later ↦ find_below-row n p t e later
  ]

  find_below-all :
      (n : ℕ) (p : E → Bool) (t : Table) (i : ℕ) {e : E}
      → i < n
      → row t i ≡ some e
      → p e ≡ true
      → Memᴰ e (find_below n p t)
  unfolding find_below keep
  find_below-all zero p t i l r fits = absurd (omega arith)
  find_below-all (suc n) p t i {e} l r fits = elim (ℕ_discrete i n) [
    | yes same ↦
        subst (λ o. Memᴰ e (keep p o (find_below n p t))) (sym r ∙ ap (row t) same)
          (subst (λ b. Memᴰ e (if b then e ∷ find_below n p t else find_below n p t)) (sym fits)
            (Memᴰ.head refl))
    | no other ↦
        keep_older p (row t n) (find_below n p t) e (find_below-all n p t i (omega arith) r fits)
  ]

  row-save :
      (e : E) (t : Table) (i : ℕ) → row (save e t) i ≡ (if k.key e == i then some e else row t i)
  row-save e t i = elim (Option-cases (t.at i)) [
    | inl gone ↦ ground (arith, own_key i e)
    | inr (a, at_i) ↦ ground (arith, own_key i e, own_key i (k.set_key i a), k.key-set_key i a)
  ]

  row-update :
      (p : E → Bool) (f : E → E)
      → ((e : E) → k.key (f e) ≡ k.key e)
      → (t : Table) (i : ℕ)
      → row (update p f t) i ≡ Option.map (λ e. if p e then f e else e) (row t i)
  row-update p f keep t i = elim (Option-cases (t.at i)) [
    | inl gone ↦ ground arith
    | inr (a, at_i) ↦
        let e = k.set_key i a in
        ground (arith, keep e, own_key i e, own_key i (f e), k.key-set_key i a)
  ]

  row-remove :
      (e : E) (t : Table) (i : ℕ) → row (remove e t) i ≡ (if k.key e == i then none else row t i)
  row-remove e t i = elim (Option-cases (t.at i)) [
    | inl gone ↦ ground arith
    | inr (a, at_i) ↦ ground (arith, own_key i (k.set_key i a), k.key-set_key i a)
  ]

  row_below : (t : Table) (i : ℕ) {e : E} → row t i ≡ some e → i < t.next
  row_below t i h = ground arith

  insert-new : (e : E) (t : Table) → row t (k.key (insert e t).0) ≡ none
  insert-new e t = rw (k.key-set_key t.next e) (ground arith)

  unfoldable pub memory : Repository k
  unfolding search_below keep keep-cases keep_older find_below find_below-row find_below-all key-row
      search_below-row search_below-fits search_below-none row_below own_key row-save insert-new
      row-update row-remove
  memory = record {
    Rows = Table;
    row = row;
    find_one = λ p t. search_below t.next p t;
    find = λ p t. find_below t.next p t;
    save = save;
    insert = insert;
    update = update;
    remove = remove;
    key-row = key-row;
    find_one-row = λ p t. search_below-row t.next p t;
    find_one-fits = λ p t. search_below-fits t.next p t;
    find_one-none = λ p t i h r. search_below-none t.next p t i (row_below t i r) h r;
    find-row = λ p t e. find_below-row t.next p t e;
    find-all = λ p t i r fits. find_below-all t.next p t i (row_below t i r) r fits;
    row-save = row-save;
    insert-new = insert-new;
    insert-same = λ e t. rw (k.key-set_key t.next e);
    row-insert = λ e t i. row-save (k.set_key t.next e) t i;
    row-update = row-update;
    row-remove = row-remove;
  }

  -- A table that holds the given rows under their keys.
  abbrev pub table : List E → Table
  table [] = record { next = 0; at = λ i. none }
  table (e ∷ es) = save e (table es)
