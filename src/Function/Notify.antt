-- ===== src/Function/Notify.antt =====
-- When RunFunction desires the request that notifies the user, under the key __notify__.
use mathop_operator.Base.{
  String, ◌≡◌, ◌≢◌, refl, sym, ◌↔◌, inl, inr, Bool, true, false, ◌&&◌, not, List, [], ◌∷◌, none,
  some, arith, ◌==◌, map, contains, Dict, lookup, insert, lookup-insert, has_key-lookup, eq_iff,
  eq-false, Bool-cases, Option-cases, if◌then◌else◌, ◌||◌,
}
use mathop_operator.Base.Result.{Result, ok, err}
use mathop_operator.Json.{Codec}
use mathop_operator.Function.Types.{TaskSpec, TaskStatus, DisposableRequest, Composite}
use mathop_operator.Function.Loop.{LoopState, Setting, visit_all}
use mathop_operator.Function.Statuses.{
  some_phase, ran, names, names-visit_all, visit_all-Consistent,
}
use mathop_operator.Function.Phases.{name_phase, phase_of, every_phase}
use mathop_operator.Function.Report.{build_notify_request, notify_key, add_request, with_notify}

-- No task of the list has the name.
abbrev pub absent : String → List TaskSpec → Bool
absent n tasks = not (contains n (map (λ (t : TaskSpec). t.name) tasks))

ran-contains :
    (n : String) (statuses : List TaskStatus)
    → ran n statuses ≡ true
    → contains n (names statuses) ≡ true
ran-contains n [] h = h
ran-contains n (st ∷ sts) h = ground (arith, ran-contains n sts)

-- No resource is desired under a name that no task has.
pub lookup-absent :
    (w : Setting) (tasks : List TaskSpec) (n : String)
    → absent n tasks ≡ true
    → lookup n (visit_all w tasks).desired ≡ none
lookup-absent w tasks n h =
    let s = visit_all w tasks in
    elim (Option-cases (lookup n s.desired)) [
      | inl none_there ↦ none_there
      | inr (dr, there) ↦
          let c : contains n (names s.statuses) ≡ true =
            ran-contains n s.statuses
              ((visit_all-Consistent w tasks).desired n (has_key-lookup n s.desired there)) in
          absurd (ground (arith, h, rw (names-visit_all w tasks) at c))
    ]

-- The notification leaves every other request as the loop made it.
pub lookup-with_notify :
    (codec : Codec) (xr : Composite) (phase : String) (s : LoopState) (provider n : String)
    → n ≢ notify_key
    → lookup n (with_notify codec xr phase s provider) ≡ lookup n s.desired
unfolding with_notify
lookup-with_notify codec xr phase s provider n ne =
    let other = eq-false notify_key n (λ e. ne (sym e)) in
    elim (Bool-cases
      (((phase == "Succeeded") || (phase == "Failed")) && not (xr.notify_url == ""))) [
        | inl b ↦ rw b (
            added
              (build_notify_request codec xr.name xr.uid phase s.heap s.statuses xr.notify_url
                provider)
              other)
        | inr b ↦ rw b
      ]
  where
    added :
        (r : Result DisposableRequest)
        → (notify_key == n) ≡ false
        → lookup n (add_request r s.desired) ≡ lookup n s.desired
    added (err e) other = refl
    added (ok nr) other = rw (lookup-insert, other)

-- The test on the phase is a test on the statuses.
terminal_phase :
    (f d : Bool) → ((name_phase f d == "Succeeded") || (name_phase f d == "Failed")) ≡ (f || d)
terminal_phase true d = refl
terminal_phase false true = refl
terminal_phase false false = refl

gate :
    (b u : Bool) (desired : Dict DisposableRequest) (nr : DisposableRequest)
    → lookup notify_key desired ≡ none
    → (lookup notify_key (if b && not u then insert notify_key nr desired else desired) ≡ some nr)
      ↔ ((u ≡ false) × (b ≡ true))
gate true true desired nr none_there = ((λ e. absurd (cc)), (λ p. absurd (cc (p.0))))
gate false u desired nr none_there = ((λ e. absurd (cc)), (λ p. absurd (cc (p.1))))
gate true false desired nr none_there = ((λ _. (refl, refl)), (λ _. rw lookup-insert))

-- Once the payload can be written, the notification is desired exactly if there is an address and
-- either some task has failed or every task has succeeded: a failure notifies while other tasks
-- are still pending or running.
pub notify_iff :
    (codec : Codec) (w : Setting) (xr : Composite) (tasks : List TaskSpec) (provider : String)
    (nr : DisposableRequest)
    → absent notify_key tasks ≡ true
    → let s = visit_all w tasks in
      build_notify_request codec xr.name xr.uid
          (phase_of s.statuses)
          s.heap
          s.statuses
          xr.notify_url
          provider
        ≡ ok nr
      → (lookup notify_key (with_notify codec xr (phase_of s.statuses) s provider) ≡ some nr) ↔ (
          (xr.notify_url ≢ "")
          × ((some_phase "Failed" s.statuses || every_phase "Succeeded" s.statuses) ≡ true))
unfolding with_notify
notify_iff codec w xr tasks provider nr no_clash built =
    let s = visit_all w tasks in
    let f = some_phase "Failed" s.statuses in
    let d = every_phase "Succeeded" s.statuses in
    let g =
      gate (f || d) (xr.notify_url == "") s.desired nr
        (lookup-absent w tasks notify_key no_clash) in
    rw (built, terminal_phase f d)
      (
        (λ e. ((λ p. ground (arith, (g.0 e).0, eq_iff xr.notify_url "", p)), (g.0 e).1)),
        (λ p. g.1 (eq-false xr.notify_url "" p.0, p.1)),
      )
