-- ===== src/Webhooks/Subscribed.antt =====
-- Which webhooks an event is for (WebhookService.dispatchEventForDeveloper), and the lists of them.
use mathlib.Core.List.{Memᴰ}
use mathlib.Core.List.Memᴰ
use text.Mathlib.Text.{◌==◌ as str_eq}
use kigali_pack.Base.{
  ◌⊎◌, ◌&&◌, ◌||◌, ◌++◌, ◌==◌, Bool-cases, ℕ, ◌≡◌, refl, sym, ap, ◌∙◌, subst, Bool, true, false,
  List, [], ◌∷◌, String, arith, if◌then◌else◌, inl, inr,
}
use kigali_pack.Webhooks.Delivery.{Webhook}
use kigali_pack.Webhooks.Service.{includes, subscribes, active_hook_of, filter}

kept_or_not :
    {A : Type 0} (b : Bool) (x y : A) {rest : List A}
    → Memᴰ x rest
    → Memᴰ x (if b then y ∷ rest else rest)
kept_or_not true x y r = Memᴰ.tail r
kept_or_not false x y r = r

pub mem-filter :
    {A : Type 0} (p : A → Bool) (x : A) (xs : List A)
    → Memᴰ x xs
    → p x ≡ true
    → Memᴰ x (filter p xs)
mem-filter p x [] m fits = absurd (Memᴰ.not-nil m)
mem-filter p x (y ∷ ys) m fits = elim (Memᴰ.cases_cons m) [
  | inl same ↦
      subst (λ b. Memᴰ x (if b then y ∷ filter p ys else filter p ys))
        (sym (ap p (sym same) ∙ fits)) (Memᴰ.head same)
  | inr later ↦ kept_or_not (p y) x y (mem-filter p x ys later fits)
]

pub append_cases : {A : Type 0} {x : A} (xs ys : List A) → Memᴰ x (xs ++ ys) → Memᴰ x xs ⊎ Memᴰ x ys
append_cases [] ys m = inr m
append_cases (z ∷ xs) ys m = elim (Memᴰ.cases_cons m) [
  | inl same ↦ inl (Memᴰ.head same)
  | inr later ↦ elim (append_cases xs ys later) [ inl l ↦ inl (Memᴰ.tail l) | inr r ↦ inr r ]
]

pub filter-Memᴰ :
    {A : Type 0} (p : A → Bool) (x : A) (xs : List A)
    → Memᴰ x (filter p xs)
    → Memᴰ x xs × (p x ≡ true)
filter-Memᴰ p x [] m = absurd (Memᴰ.not-nil m)
filter-Memᴰ p x (y ∷ ys) m = elim (Bool-cases (p y)) [
  | inl fits ↦
      elim (Memᴰ.cases_cons
        (subst (λ b. Memᴰ x (if b then y ∷ filter p ys else filter p ys)) fits m)) [
          | inl same ↦ (Memᴰ.head same, ap p same ∙ fits)
          | inr later ↦ let (there, ok) = filter-Memᴰ p x ys later in (Memᴰ.tail there, ok)
        ]
  | inr misses ↦
      let (there, ok) =
        filter-Memᴰ p x ys
          (subst (λ b. Memᴰ x (if b then y ∷ filter p ys else filter p ys)) misses m) in
      (Memᴰ.tail there, ok)
]

-- A text of the list is that one.
abbrev pub IsListed : String → List String → Type 0
IsListed e xs = (x : String) × Memᴰ x xs × (str_eq x e ≡ true)

IsListed-includes : (e : String) (xs : List String) → IsListed e xs → includes e xs ≡ true
IsListed-includes e [] (x, m, same) = absurd (Memᴰ.not-nil m)
IsListed-includes e (y ∷ ys) (x, m, same) = elim (Memᴰ.cases_cons m) [
  | inl here ↦ ap (λ b. b || includes e ys) (ap (λ z. str_eq z e) (sym here) ∙ same)
  | inr later ↦
      ap (λ b. str_eq y e || b) (IsListed-includes e ys (x, later, same)) ∙ or_true (str_eq y e)
]
  where
    or_true : (b : Bool) → b || true ≡ true
    or_true true = refl
    or_true false = refl

or_cases : (a b : Bool) → a || b ≡ true → (a ≡ true) ⊎ (b ≡ true)
or_cases true b h = inl refl
or_cases false b h = inr h

includes-IsListed : (e : String) (xs : List String) → includes e xs ≡ true → IsListed e xs
includes-IsListed e [] h = cc
includes-IsListed e (y ∷ ys) h = elim (or_cases (str_eq y e) (includes e ys) h) [
  | inl here ↦ (y, Memᴰ.head refl, here)
  | inr later ↦ let (x, m, same) = includes-IsListed e ys later in (x, Memᴰ.tail m, same)
]

-- The webhook is an active one of the API key, and its events have the event, or the star.
pub record IsSubscribed (api_key_id : ℕ) (event_type : String) (w : Webhook) : Type 0 where
  pub owned : w.api_key_id ≡ api_key_id
  pub active : w.is_active ≡ true
  pub listed : IsListed event_type w.events ⊎ IsListed "*" w.events

both : (a b : Bool) → a && b ≡ true → (a ≡ true) × (b ≡ true)
both true b h = (refl, h)
both false b h = cc

pub matches-IsSubscribed :
    (api_key_id : ℕ) (event_type : String) (w : Webhook)
    → active_hook_of api_key_id w ≡ true
    → subscribes event_type w ≡ true
    → IsSubscribed api_key_id event_type w
matches-IsSubscribed api_key_id event_type w owned listed =
    let (same, active) = both (w.api_key_id == api_key_id) w.is_active owned in
    record {
      owned = ground (arith, same);
      active = active;
      listed = elim (or_cases (includes event_type w.events) (includes "*" w.events) listed) [
        | inl e ↦ inl (includes-IsListed event_type w.events e)
        | inr star ↦ inr (includes-IsListed "*" w.events star)
      ];
    }

pub IsSubscribed-active_hook_of :
    (api_key_id : ℕ) (event_type : String) (w : Webhook)
    → IsSubscribed api_key_id event_type w
    → active_hook_of api_key_id w ≡ true
IsSubscribed-active_hook_of api_key_id event_type w s =
    ap (λ b. (w.api_key_id == api_key_id) && b) s.active ∙ ground (arith, s.owned)

pub IsSubscribed-subscribes :
    (api_key_id : ℕ) (event_type : String) (w : Webhook)
    → IsSubscribed api_key_id event_type w
    → subscribes event_type w ≡ true
IsSubscribed-subscribes api_key_id event_type w s = elim s.listed [
  | inl e ↦ ap (λ b. b || includes "*" w.events) (IsListed-includes event_type w.events e)
  | inr star ↦
      ap (λ b. includes event_type w.events || b) (IsListed-includes "*" w.events star)
      ∙ or_true (includes event_type w.events)
]
  where
    or_true : (b : Bool) → b || true ≡ true
    or_true true = refl
    or_true false = refl
