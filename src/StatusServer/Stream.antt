-- ===== src/StatusServer/Stream.antt =====
-- The stream of handleStream: what a client receives, against what the loop observes.
use mathop_operator.StatusServer.{
  Event, cancelled, tick, stream, payload_text, ends_stream, WorkflowStatus, String, List, Result,
  err, Workflow, ok,
}
use mathop_operator.Base.{if◌then◌else◌, ◌==◌}
use mathop_operator.Base.{
  List, ◌∷◌, ◌≡◌, [], ◌≢◌, eq-cases, Bool-cases, inl, false, true, refl, inr, sym, ◌++◌, ◌∙◌,
}

-- The payloads that the loop observes: one for each tick with a workflow, up to the first that is
-- terminal, and none once the request is cancelled.
abbrev pub observed : (WorkflowStatus → Result String) → List Event → List String
observed marshal [] = []
observed marshal (cancelled ∷ events) = []
observed marshal (tick (err e) ∷ events) = observed marshal events
observed marshal (tick (ok wf) ∷ events) =
    payload_text (marshal wf.status)
    ∷ (if ends_stream wf.status.phase then [] else observed marshal events)

-- A sequence without the elements that equal the one before them, `last` being before the first.
abbrev pub changes : String → List String → List String
changes last [] = []
changes last (p ∷ ps) = let rest = changes p ps in if p == last then rest else p ∷ rest

-- No element equals the one before it.
abbrev pub Alternates : String → List String → Type 0
Alternates last [] = Unit
Alternates last (p ∷ ps) = (p ≢ last) × Alternates p ps

-- The last element, or `d` where there is none.
abbrev pub last_of : String → List String → String
last_of d [] = d
last_of d (p ∷ ps) = last_of p ps

stream_tick :
    (marshal : WorkflowStatus → Result String) (last : String) (wf : Workflow) (events : List Event)
    → stream marshal (payload_text (marshal wf.status)) events
      ≡ changes (payload_text (marshal wf.status)) (observed marshal events)
    → stream marshal last (tick (ok wf) ∷ events)
      ≡ changes last (observed marshal (tick (ok wf) ∷ events))
unfolding stream
stream_tick marshal last wf events ih = elim (Bool-cases (ends_stream wf.status.phase)) [
  | inl stops ↦ rw stops refl
  | inr goes ↦ rw (goes, ih) refl
]

-- A client receives the observed payloads, in their order, without those that repeat the one before.
pub stream-changes :
    (marshal : WorkflowStatus → Result String) (last : String) (events : List Event)
    → stream marshal last events ≡ changes last (observed marshal events)
unfolding stream
stream-changes marshal last [] = refl
stream-changes marshal last (cancelled ∷ events) = refl
stream-changes marshal last (tick (err e) ∷ events) = stream-changes marshal last events
stream-changes marshal last (tick (ok wf) ∷ events) =
    stream_tick marshal last wf events (stream-changes marshal _ events)

changes-Alternates : (last : String) (ps : List String) → Alternates last (changes last ps)
changes-Alternates last [] = tt
changes-Alternates last (p ∷ ps) = elim (eq-cases p last) [
  | inl (e, same) ↦ rw (e, sym same) (changes-Alternates p ps)
  | inr (e, ne) ↦ rw e (ne, changes-Alternates p ps)
]

-- No payload is delivered twice in a row.
pub stream-Alternates :
    (marshal : WorkflowStatus → Result String) (last : String) (events : List Event)
    → Alternates last (stream marshal last events)
stream-Alternates marshal last events =
    rw (stream-changes marshal last events) (changes-Alternates last (observed marshal events))

last_of-changes :
    (last : String) (ps : List String) → last_of last (changes last ps) ≡ last_of last ps
last_of-changes last [] = refl
last_of-changes last (p ∷ ps) = elim (eq-cases p last) [
  | inl (e, same) ↦ rw (e, sym same) (last_of-changes p ps)
  | inr (e, ne) ↦ rw e (last_of-changes p ps)
]

-- What the loop goes through without ending: no cancellation and no terminal status.
abbrev pub GoesOn : List Event → Type 0
GoesOn [] = Unit
GoesOn (cancelled ∷ events) = ⊥
GoesOn (tick (err e) ∷ events) = GoesOn events
GoesOn (tick (ok wf) ∷ events) = (ends_stream wf.status.phase ≡ false) × GoesOn events

last_of-observed :
    (marshal : WorkflowStatus → Result String) (d : String) (before after : List Event)
    (wf : Workflow)
    → GoesOn before
    → ends_stream wf.status.phase ≡ true
    → last_of d (observed marshal (before ++ tick (ok wf) ∷ after))
      ≡ payload_text (marshal wf.status)
last_of-observed marshal d [] after wf goes ends = rw ends refl
last_of-observed marshal d (cancelled ∷ before) after wf goes ends = absurd goes
last_of-observed marshal d (tick (err e) ∷ before) after wf goes ends =
    last_of-observed marshal d before after wf goes ends
last_of-observed marshal d (tick (ok w) ∷ before) after wf goes ends =
    rw (goes.0)
      (last_of-observed marshal (payload_text (marshal w.status)) before after wf goes.1 ends)

-- When the loop observes a terminal status, that status is what the client sees last, and nothing
-- that happens afterwards is delivered.
pub terminal_is_last :
    (marshal : WorkflowStatus → Result String) (last : String) (before after : List Event)
    (wf : Workflow)
    → GoesOn before
    → ends_stream wf.status.phase ≡ true
    → last_of last (stream marshal last (before ++ tick (ok wf) ∷ after))
      ≡ payload_text (marshal wf.status)
terminal_is_last marshal last before after wf goes ends =
    rw (stream-changes marshal last (before ++ tick (ok wf) ∷ after))
      (last_of-changes last _ ∙ last_of-observed marshal last before after wf goes ends)
