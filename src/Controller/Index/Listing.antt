-- ===== src/Controller/Index/Listing.antt =====
-- What the client's List with MatchingFields documents, for an index function over a store.
use mathop_operator.Base.{String, List, ◌≡◌, true, contains}
use mathlib.Core.List.{Memᴰ}
use mathop_operator.Base.Result.{Result, ok}

-- A list that is answered holds the objects of the store whose index values contain the key, and no
-- others.
pub record Lists {A : Type 0} (InStore : A → Type 0) (values : A → List String)
    (list : String → Result (List A)) : Type 0 where
  pub sound :
      (key : String) (items : List A)
      → list key ≡ ok items
      → (x : A) → Memᴰ x items
      → InStore x × (contains key (values x) ≡ true)
  pub complete :
      (key : String) (items : List A)
      → list key ≡ ok items
      → (x : A) → InStore x
      → contains key (values x) ≡ true
      → Memᴰ x items
