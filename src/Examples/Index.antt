-- ===== src/Examples/Index.antt =====
-- An index over a list of objects, which answers as the client's List documents.
use mathop_operator.Base.{
  String, true, false, List, [], ◌∷◌, ◌≡◌, refl, contains, if◌then◌else◌, Bool-cases, inl, inr,
  subst, sym, ap, ◌∙◌,
}
use mathlib.Core.List.{Memᴰ}
use mathlib.Core.List.Memᴰ
use mathop_operator.Base.Result.{Result, ok}
use mathop_operator.Controller.Index.Listing.{Lists}

module _ {A : Type 0} (values : A → List String) (key : String) where
  abbrev pub select : List A → List A
  select [] = []
  select (x ∷ xs) = let rest = select xs in if contains key (values x) then x ∷ rest else rest

  select_sound :
      (store : List A) (x : A)
      → Memᴰ x (select store)
      → Memᴰ x store × (contains key (values x) ≡ true)
  select_sound [] x h = absurd (Memᴰ.not-nil h)
  select_sound (y ∷ ys) x h = elim (Bool-cases (contains key (values y))) [
    | inl e ↦ elim (Memᴰ.cases_cons (subst (λ l. Memᴰ x l) (kept e) h)) [
      | inl same ↦ (Memᴰ.head same, ap (λ z. contains key (values z)) same ∙ e)
      | inr later ↦ let r = select_sound ys x later in (Memᴰ.tail r.0, r.1)
    ]
    | inr e ↦
        let r = select_sound ys x (subst (λ l. Memᴰ x l) (dropped e) h) in (Memᴰ.tail r.0, r.1)
  ]
    where
      kept : contains key (values y) ≡ true → select (y ∷ ys) ≡ y ∷ select ys
      kept e = rw e refl

      dropped : contains key (values y) ≡ false → select (y ∷ ys) ≡ select ys
      dropped e = rw e refl

  select_complete :
      (store : List A) (x : A)
      → Memᴰ x store
      → contains key (values x) ≡ true
      → Memᴰ x (select store)
  select_complete [] x h has = absurd (Memᴰ.not-nil h)
  select_complete (y ∷ ys) x h has = elim (Memᴰ.cases_cons h) [
    | inl same ↦ rw (ap (λ z. contains key (values z)) (sym same) ∙ has) (Memᴰ.head same)
    | inr later ↦ elim (Bool-cases (contains key (values y))) [
      | inl e ↦ rw e (Memᴰ.tail (select_complete ys x later has))
      | inr e ↦ rw e (select_complete ys x later has)
    ]
  ]

items_of : {A : Type 0} {xs ys : List A} → ◌≡◌ {A = Result (List A)} (ok xs) (ok ys) → xs ≡ ys
items_of e = cc e

pub select-Lists :
    {A : Type 0} (InStore : A → Type 0) (values : A → List String) (store : List A)
    → ((x : A) → Memᴰ x store → InStore x)
    → ((x : A) → InStore x → Memᴰ x store)
    → Lists InStore values (λ key. ok (select values key store))
select-Lists InStore values store to from = record {
  sound = λ key items e x h.
      let r = select_sound values key store x (subst (λ l. Memᴰ x l) (sym (items_of e)) h) in
      (to x r.0, r.1);
  complete = λ key items e x stored has.
      subst (λ l. Memᴰ x l) (items_of e) (select_complete values key store x (from x stored) has);
}
