-- ===== src/Service.antt =====
-- How a service method runs: it reads and writes the database, and it may throw. What was written
-- before a throw stays written, unless the method runs in a transaction.
pub mod Rollback
pub mod Keeps
use kigali_pack.Base.{
  Bool, true, false, Option, none, some, ◌≡◌, refl, sym, ◌∙◌, ap, subst, ◌⊎◌, inl, inr,
  Option-cases, arith,
}

-- The HTTP exceptions of the framework, without their messages.
pub data Exception : Type 0 where
  bad_request unauthorized forbidden not_found conflict too_many_requests : Exception
  -- The database refused a row; a property of null was read.
  query_failed type_error : Exception

pub data Result (A : Type 0) : Type 0 where
  ok : A → Result A
  err : Exception → Result A

abbrev pub Action : Type 0 → Type 0 → Type 0
Action S A = S → Result A × S

module _ {S : Type 0} where
  abbrev pub pure : {A : Type 0} → A → Action S A
  pure a s = (ok a, s)

  abbrev pub throw : {A : Type 0} → Exception → Action S A
  throw e s = (err e, s)

  -- What follows a step: nothing, if it has thrown.
  abbrev pub continue : {A B : Type 0} → Result A × S → (A → Action S B) → Result B × S
  continue (ok a, s) f = f a s
  continue (err e, s) f = (err e, s)

  infixl 5 ◌>>=◌ ◌>>◌
  abbrev pub ◌>>=◌ : {A B : Type 0} → Action S A → (A → Action S B) → Action S B
  ◌>>=◌ m f s = continue (m s) f

  abbrev pub ◌>>◌ : {A B : Type 0} → Action S A → Action S B → Action S B
  m >> k = m >>= λ _. k

  -- A read that may find nothing.
  abbrev pub found : {A : Type 0} → (S → Option A) → Exception → Action S A
  found read e s = elim (read s) [ none ↦ (err e, s) | some a ↦ (ok a, s) ]

  abbrev pub gets : {A : Type 0} → (S → A) → Action S A
  gets read s = (ok (read s), s)

  abbrev pub throw_if : Bool → Exception → Action S (Unit {0})
  throw_if true e s = (err e, s)
  throw_if false e s = (ok tt, s)

  abbrev pub modify : (S → S) → Action S (Unit {0})
  modify f s = (ok tt, f s)

  abbrev pub change : {A : Type 0} → (S → A × S) → Action S A
  change f s = let (a, s') = f s in (ok a, s')

-- A method of a service that keeps a part of the state.
abbrev pub zoom : {S T A : Type 0} → (S → T) → (T → S → S) → Action T A → Action S A
zoom get set m s = let (r, t) = m (get s) in (r, set t s)

-- TypeORM's `DataSource.transaction`: what the callback wrote is kept if it returns, and undone if
-- it throws.
pub record DataSource (S : Type 0) : Type 1 where
  pub transaction : {A : Type 0} → Action S A → Action S A
  pub transaction-ok :
      {A : Type 0} (m : Action S A) (s : S) {a : A} {s' : S}
      → m s ≡ (ok a, s')
      → transaction m s ≡ (ok a, s')
  pub transaction-err :
      {A : Type 0} (m : Action S A) (s : S) {e : Exception} {s' : S}
      → m s ≡ (err e, s')
      → transaction m s ≡ (err e, s)

-- A run returns or throws.
pub Result-cases :
    {S A : Type 0} (r : Result A × S)
    → ((a : A) × (s : S) × (r ≡ (ok a, s))) ⊎ ((e : Exception) × (s : S) × (r ≡ (err e, s)))
Result-cases (ok a, s) = inl (a, s, refl)
Result-cases (err e, s) = inr (e, s, refl)

module _ {S : Type 0} where
  -- A step that returns, and what follows it.
  pub step :
      {A B : Type 0} (m : Action S A) (f : A → Action S B) (s : S) {a : A} {t : S}
      {r : Result B × S}
      → m s ≡ (ok a, t)
      → f a t ≡ r
      → (m >>= f) s ≡ r
  step m f s h k = ap (λ r. continue r f) h ∙ k

  -- Inversion of a step that has returned.
  pub >>=-eq-ok :
      {A B : Type 0} (m : Action S A) (f : A → Action S B) (s : S) {b : B} {s' : S}
      → (m >>= f) s ≡ (ok b, s')
      → (a : A) × (t : S) × (m s ≡ (ok a, t)) × (f a t ≡ (ok b, s'))
  >>=-eq-ok m f s {b} {s'} h = elim (Result-cases (m s)) [
    | inl (a, t, e) ↦ (a, t, e, subst (λ r. continue r f ≡ (ok b, s')) e h)
    | inr (x, t, e) ↦ cc (subst (λ r. continue r f ≡ (ok b, s')) e h)
  ]

  -- The same, handing what the step returned on.
  pub after_step :
      {A B P : Type 0} (m : Action S A) (f : A → Action S B) (s : S) {b : B} {s' : S}
      → (m >>= f) s ≡ (ok b, s')
      → ((a : A) (t : S) → m s ≡ (ok a, t) → f a t ≡ (ok b, s') → P)
      → P
  after_step m f s h next = let (a, t, e, rest) = >>=-eq-ok m f s h in next a t e rest

module _ {S : Type 0} (d : DataSource S) {A : Type 0} (m : Action S A) (s : S) where
  -- A transaction that returns has done what its callback does.
  pub transaction_returns : {a : A} {s' : S} → d.transaction m s ≡ (ok a, s') → m s ≡ (ok a, s')
  transaction_returns h = elim (Result-cases (m s)) [
    | inl (a, t, e) ↦ e ∙ sym (d.transaction-ok m s e) ∙ h
    | inr (x, t, e) ↦ cc (d.transaction-err m s e)
  ]

  -- A transaction that throws has changed nothing.
  pub transaction_throws : {e : Exception} {s' : S} → d.transaction m s ≡ (err e, s') → s' ≡ s
  transaction_throws h = elim (Result-cases (m s)) [
    | inl (a, t, e) ↦ cc (d.transaction-ok m s e)
    | inr (x, t, e) ↦ ap (λ r. r.1) (sym h ∙ d.transaction-err m s e)
  ]

  -- What a transaction that returns keeps, every run of it keeps.
  pub transaction_keeps {ℓ} :
      (P : S → Type ℓ)
      → ((a : A) (s' : S) → d.transaction m s ≡ (ok a, s') → P s')
      → P s
      → P (d.transaction m s).1
  transaction_keeps P returned p = elim (Result-cases (d.transaction m s)) [
    | inl (a, t, e) ↦ subst P (sym (ap (λ r. r.1) e)) (returned a t e)
    | inr (x, t, e) ↦ subst P (sym (transaction_throws e) ∙ sym (ap (λ r. r.1) e)) p
  ]

pub ok-injective :
    {S A : Type 0} {a b : A} {s t : S}
    → ◌≡◌ {A = Result A × S} (ok a, s) (ok b, t)
    → (a ≡ b) × (s ≡ t)
ok-injective h = (cc, ap (λ r. r.1) h)

-- A read that returns has changed nothing.
pub found_same :
    {S A : Type 0} (read : S → Option A) (e : Exception) (s : S) {a : A} {s' : S}
    → found read e s ≡ (ok a, s')
    → s' ≡ s
found_same read e s h = elim (Option-cases (read s)) [
  | inl gone ↦ ground arith
  | inr (a, at_a) ↦ ground arith
]

pub found_reads :
    {S A : Type 0} (read : S → Option A) (e : Exception) (s : S) {a : A} {s' : S}
    → found read e s ≡ (ok a, s')
    → read s ≡ some a
found_reads read e s h = elim (Option-cases (read s)) [
  | inl gone ↦ ground arith
  | inr (a, at_a) ↦ ground arith
]

-- A read that finds nothing, and a step that throws, with what would follow it.
pub found-none :
    {S A : Type 0} (read : S → Option A) (e : Exception) (s : S)
    → read s ≡ none
    → found read e s ≡ (err e, s)
found-none read e s h = elim (Option-cases (read s)) [
  | inl gone ↦ ground arith
  | inr (a, at_a) ↦ cc
]

pub step_throws :
    {S A B : Type 0} (m : Action S A) (f : A → Action S B) (s : S) {e : Exception} {t : S}
    → m s ≡ (err e, t)
    → (m >>= f) s ≡ (err e, t)
step_throws m f s h = ap (λ r. continue r f) h

-- A guard that lets pass has changed nothing.
pub throw_if_same :
    {S : Type 0} (b : Bool) (e : Exception) (s : S) {u : Unit {0}} {s' : S}
    → throw_if b e s ≡ (ok u, s')
    → s' ≡ s
throw_if_same true e s h = cc
throw_if_same false e s h = ap (λ r. r.1) (sym h)

pub found-some :
    {S A : Type 0} (read : S → Option A) (e : Exception) (s : S) {a : A}
    → read s ≡ some a
    → found read e s ≡ (ok a, s)
found-some read e s h = elim (Option-cases (read s)) [
  | inl gone ↦ cc
  | inr (a, at_a) ↦ ground arith
]

-- A step on a part of the state, from its own run.
pub zoom-eq-ok :
    {S T A : Type 0} (get : S → T) (set : T → S → S) (m : Action T A) (s : S) {a : A} {s' : S}
    → zoom get set m s ≡ (ok a, s')
    → (t : T) × (m (get s) ≡ (ok a, t)) × (set t s ≡ s')
zoom-eq-ok get set m s h = elim (Result-cases (m (get s))) [
  | inl (a, t, e) ↦
      let (same, states) = ok-injective (sym (ap (λ x. (x.0, set x.1 s)) e) ∙ h) in
      (t, e ∙ ap (λ x. (ok x, t)) same, states)
  | inr (x, t, e) ↦ cc (sym (ap (λ y. (y.0, set y.1 s)) e) ∙ h)
]

-- A guard that lets pass has found nothing.
pub throw_if-false :
    {S : Type 0} (b : Bool) (e : Exception) (s : S) {u : Unit {0}} {s' : S}
    → throw_if b e s ≡ (ok u, s')
    → b ≡ false
throw_if-false true e s h = cc
throw_if-false false e s h = refl
