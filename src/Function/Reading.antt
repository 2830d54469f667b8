-- ===== src/Function/Reading.antt =====
-- What taskStatusFromObserved makes of a resource: a rule with a case for each of its branches.
use mathop_operator.Base.{
  String, ◌≡◌, inl, inr, Bool, true, false, not, ◌&&◌, ◌||◌, none, some, ◌==◌, Bool-cases,
}
use mathop_operator.Base.{ne_of_eq-false, eq_iff, arith, refl, Option, ◌↔◌}
use mathop_operator.Json.{Json}
use mathop_operator.Base.Int.{ℤ, pos, to_int32, ltb_ℤ, leb_ℤ, eqb_ℤ}
use mathop_operator.Base.Text.{◌<>◌, show_ℤ}
use mathop_operator.Json.{Codec}
use mathop_operator.Function.Heap.{Heap}
use mathop_operator.Function.Types.{TaskStatus, ObservedResource}
use mathop_operator.Function.Observed.{
  bare_status, is_unsynced, read_error, read_code, read_body, read_synced, status_of_body,
  task_status_from_observed,
}

-- No response has been recorded.
abbrev pub no_response : ObservedResource → Bool
no_response res = eqb_ℤ (read_code res) (pos 0) && (read_body res == "")

abbrev pub outside_2xx : ℤ → Bool
outside_2xx code = ltb_ℤ code (pos 200) || leb_ℤ (pos 300) code

module _ {ℓ} (P : TaskStatus → Type ℓ) (codec : Codec) (name : String) (res : ObservedResource)
    (h : Heap) where
  abbrev AfterError : Type ℓ
  AfterError = P (record {
    name = name;
    phase = "Failed";
    status_code = none;
    output = none;
    error = read_error res;
  })

  abbrev AfterBadCode : Type ℓ
  AfterBadCode = P (record {
    name = name;
    phase = "Failed";
    status_code = some (to_int32 (read_code res));
    output = none;
    error = "endpoint returned HTTP " <> show_ℤ (read_code res) <> ": " <> read_body res;
  })

  abbrev WhileUnsynced : Type ℓ
  WhileUnsynced =
      P (record (bare_status name "Running") { status_code = some (to_int32 (read_code res)) })

  pub reading_rule :
      ((not (read_error res == "")) ≡ true → AfterError)
      → ((not (read_error res == "")) ≡ false
          → no_response res ≡ true
          → P (bare_status name "Running"))
      → ((not (read_error res == "")) ≡ false
          → no_response res ≡ false
          → outside_2xx (read_code res) ≡ true
          → AfterBadCode)
      → ((not (read_error res == "")) ≡ false
          → no_response res ≡ false
          → outside_2xx (read_code res) ≡ false
          → is_unsynced (read_synced res) ≡ true
          → WhileUnsynced)
      → ((not (read_error res == "")) ≡ false
          → no_response res ≡ false
          → outside_2xx (read_code res) ≡ false
          → is_unsynced (read_synced res) ≡ false
          → P (status_of_body name (to_int32 (read_code res)) (codec.decode (read_body res)) h).0)
      → P (task_status_from_observed codec name res h).0
  unfolding task_status_from_observed
  reading_rule on_error on_none on_code on_unsynced on_body =
      elim (Bool-cases (not (read_error res == ""))) [
        | inl a ↦ rw a (on_error a)
        | inr a ↦ elim (Bool-cases (no_response res)) [
          | inl b ↦ rw (a, b) (on_none a b)
          | inr b ↦ elim (Bool-cases (outside_2xx (read_code res))) [
            | inl c ↦ rw (a, b, c) (on_code a b c)
            | inr c ↦ elim (Bool-cases (is_unsynced (read_synced res))) [
              | inl d ↦ rw (a, b, c, d) (on_unsynced a b c d)
              | inr d ↦ rw (a, b, c, d) (on_body a b c d)
            ]
          ]
        ]
      ]

-- The rule where a branch needs no more than its status.
pub reading_cases {ℓ} :
    (P : TaskStatus → Type ℓ) (codec : Codec) (name : String) (res : ObservedResource) (h : Heap)
    → AfterError P codec name res h
    → P (bare_status name "Running")
    → AfterBadCode P codec name res h
    → WhileUnsynced P codec name res h
    → P (status_of_body name (to_int32 (read_code res)) (codec.decode (read_body res)) h).0
    → P (task_status_from_observed codec name res h).0
reading_cases P codec name res h a b c d e =
    reading_rule P codec name res h (λ _. a) (λ _ _. b) (λ _ _ _. c) (λ _ _ _ _. d) (λ _ _ _ _. e)

-- A text that decodes to a map: to an object, or to null, which leaves the map nil.
abbrev pub IsMap : Option Json → Type 0
IsMap (some (Json.obj m)) = Unit
IsMap (some Json.null) = Unit
IsMap _ = ⊥

succeeded_of_body :
    (name : String) (c : ℤ) (o : Option Json) (h : Heap)
    → ((status_of_body name c o h).0.phase ≡ "Succeeded") ↔ IsMap o
unfolding status_of_body
succeeded_of_body name c (some (Json.obj m)) h = (λ _. tt, λ _. refl)
succeeded_of_body name c (some Json.null) h = (λ _. tt, λ _. refl)
succeeded_of_body name c (some (Json.arr xs)) h =
    (λ e. absurd (ne_of_eq-false "Failed" "Succeeded" refl e), λ f. absurd f)
succeeded_of_body name c (some _) h =
    (λ e. absurd (ne_of_eq-false "Failed" "Succeeded" refl e), λ f. absurd f)
succeeded_of_body name c none h =
    (λ e. absurd (ne_of_eq-false "Failed" "Succeeded" refl e), λ f. absurd f)

-- A resource whose response was received, has a code of 2xx and a body that decodes to a map, and that
-- neither reports an error nor is marked as not synced.
abbrev pub IsSuccess : Codec → ObservedResource → Type 0
IsSuccess codec res =
    (read_error res ≡ "")
    × (no_response res ≡ false)
    × (outside_2xx (read_code res) ≡ false)
    × (is_unsynced (read_synced res) ≡ false)
    × IsMap (codec.decode (read_body res))

-- A task counts as succeeded exactly if its resource is such a success.
pub succeeded_iff :
    (codec : Codec) (name : String) (res : ObservedResource) (h : Heap)
    → ((task_status_from_observed codec name res h).0.phase ≡ "Succeeded") ↔ IsSuccess codec res
succeeded_iff codec name res h =
    reading_rule (λ (st : TaskStatus). (st.phase ≡ "Succeeded") ↔ IsSuccess codec res) codec name
      res h
      (λ a. (
        λ e. absurd (ne_of_eq-false "Failed" "Succeeded" refl e),
        λ g. absurd (ground (arith, a, g.0, eq_iff (read_error res) "")),
      ))
      (λ a b. (
        λ e. absurd (ne_of_eq-false "Running" "Succeeded" refl e),
        λ g. absurd (ground (arith, b, g.1)),
      ))
      (λ a b c. (
        λ e. absurd (ne_of_eq-false "Failed" "Succeeded" refl e),
        λ g. absurd (ground (arith, c, g.2)),
      ))
      (λ a b c d. (
        λ e. absurd (ne_of_eq-false "Running" "Succeeded" refl e),
        λ g. absurd (ground (arith, d, g.3)),
      ))
      (λ a b c d.
        let body =
          succeeded_of_body name (to_int32 (read_code res)) (codec.decode (read_body res)) h in
        (λ e. (ground (arith, a, eq_iff (read_error res) ""), b, c, d, body.0 e), λ g. body.1 g.4))
