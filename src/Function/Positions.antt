-- ===== src/Function/Positions.antt =====
-- Where in the statuses a task stands: the loop over a list of tasks, cut at one of them.
use mathop_operator.Base.{
  suc, ◌≡◌, refl, sym, ap, ◌∙◌, List, [], ◌∷◌, ◌++◌, some, length, get_elem?, for_each,
  for_each-append, append_assoc, append-nil, map,
}
use mathop_operator.Function.Types.{TaskSpec, TaskStatus}
use mathop_operator.Function.Loop.{LoopState, Setting, start, visit, visit_all, settle}
use mathop_operator.Function.Observed.{bare_status}
use mathop_operator.Function.Outcome.{Outcome, visit-Outcome}
use mathop_operator.Function.Statuses.{names-visit_all}

-- The state before a task is that after the tasks in front of it.
pub visit_all-snoc :
    (w : Setting) (before : List TaskSpec) (task : TaskSpec)
    → visit_all w (before ++ task ∷ []) ≡ visit w task (visit_all w before)
unfolding visit_all
visit_all-snoc w before task = for_each-append (visit w) before (task ∷ []) start

-- A round appends one status.
visit-appends :
    (w : Setting) (task : TaskSpec) (s : LoopState)
    → (st : TaskStatus) × ((visit w task s).statuses ≡ s.statuses ++ st ∷ [])
unfolding settle
visit-appends w task s = appended (visit w task s) (visit-Outcome w task s)
  where
    appended :
        (s' : LoopState)
        → Outcome w task s s'
        → (st : TaskStatus) × (s'.statuses ≡ s.statuses ++ st ∷ [])
    appended s' (Outcome.skips _ e) = (bare_status task.name "Skipped", rw e)
    appended s' (Outcome.waits _ _ _ e) = (bare_status task.name "Pending", rw e)
    appended s' (Outcome.fails msg _ _ e) =
        (record (bare_status task.name "Failed") { error = msg }, rw e)
    appended s' (Outcome.creates _ _ _ _ _ e) = (bare_status task.name "Pending", rw e)
    appended s' (Outcome.refreshes dr obs st h _ _ _ found _ e) = (st, rw e)

-- The rounds that follow only append.
visits-append :
    (w : Setting) (tasks : List TaskSpec) (s : LoopState)
    → (rest : List TaskStatus) × ((for_each (visit w) tasks s).statuses ≡ s.statuses ++ rest)
visits-append w [] s = ([], sym (append-nil _))
visits-append w (t ∷ ts) s =
    let (st, e) = visit-appends w t s in
    let (rest, f) = visits-append w ts (visit w t s) in (st ∷ rest, f ∙ rw (e, append_assoc))

length-map {ℓ κ} :
    {A : Type ℓ} {B : Type κ} (f : A → B) (xs : List A) → length (map f xs) ≡ length xs
length-map f [] = refl
length-map f (x ∷ xs) = ap suc (length-map f xs)

-- There are as many statuses as tasks.
pub length-statuses :
    (w : Setting) (tasks : List TaskSpec) → length (visit_all w tasks).statuses ≡ length tasks
length-statuses w tasks =
    sym (length-map (λ (st : TaskStatus). st.name) (visit_all w tasks).statuses)
    ∙ ap length (names-visit_all w tasks)
    ∙ length-map (λ (t : TaskSpec). t.name) tasks

get_elem?-append_middle {ℓ} :
    {A : Type ℓ} (xs : List A) (y : A) (ys : List A) → get_elem? (xs ++ y ∷ ys) (length xs) ≡ some y
get_elem?-append_middle [] y ys = refl
get_elem?-append_middle (x ∷ xs) y ys = get_elem?-append_middle xs y ys

-- The status of a task, in the result of the whole loop, is the one that its round appended.
pub status_at :
    (w : Setting) (before after : List TaskSpec) (task : TaskSpec) (st : TaskStatus)
    → (visit w task (visit_all w before)).statuses ≡ (visit_all w before).statuses ++ st ∷ []
    → get_elem? (visit_all w (before ++ task ∷ after)).statuses (length before) ≡ some st
status_at w before after task st h =
    let s = visit_all w before in
    let (rest, e) = visits-append w after (visit w task s) in
    let whole : (visit_all w (before ++ task ∷ after)).statuses ≡ s.statuses ++ st ∷ rest =
      ap (λ (x : LoopState). x.statuses) (split_loop w before after task)
      ∙ e
      ∙ rw (h, append_assoc) in
    rw (whole, ← length-statuses w before) (get_elem?-append_middle s.statuses st rest)
  where
    split_loop :
        (w : Setting) (before after : List TaskSpec) (task : TaskSpec)
        → visit_all w (before ++ task ∷ after)
          ≡ for_each (visit w) after (visit w task (visit_all w before))
    split_loop w before after task =
        unfold visit_all in for_each-append (visit w) before (task ∷ after) start
