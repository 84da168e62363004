-- ===== src/Redis.antt =====
-- What the program uses of Redis and of no file of the repository: string keys with a time to
-- live, and a list as a queue. One `Keys` is the part of the key space behind one prefix.
pub mod Memory
use scamlens.Base.{
  ℕ, ◌+◌, Bool, true, false, ◌≡◌, ◌≤◌, ◌<◌, Text, List, [], ◌∷◌, ◌++◌, Option, none, some, same,
  same_refl, if◌then◌else◌,
}

pub record Keys (V : Type 0) : Type 1 where
  pub State : Type 0
  -- GET key
  pub get : Text → State → Option V
  -- SET key value EX ttl
  pub set : Text → V → ℕ → State → State
  -- SET key value EX ttl NX
  pub set_nx : Text → V → ℕ → State → Bool × State
  -- DEL key
  pub delete : Text → State → State
  -- that many seconds pass
  pub elapse : ℕ → State → State
  pub get-set :
      (k j : Text) (v : V) (ttl : ℕ) (s : State)
      → 0 < ttl
      → get j (set k v ttl s) ≡ (if same k j then some v else get j s)
  pub set_nx-free :
      (k : Text) (v : V) (ttl : ℕ) (s : State)
      → get k s ≡ none
      → set_nx k v ttl s ≡ (true, set k v ttl s)
  pub set_nx-held :
      (k : Text) (v w : V) (ttl : ℕ) (s : State) → get k s ≡ some w → set_nx k v ttl s ≡ (false, s)
  pub get-delete :
      (k j : Text) (s : State) → get j (delete k s) ≡ (if same k j then none else get j s)
  pub get-elapse_none : (k : Text) (t : ℕ) (s : State) → get k s ≡ none → get k (elapse t s) ≡ none
  pub get-elapse_kept :
      (k : Text) (v : V) (ttl t : ℕ) (s : State)
      → t < ttl
      → get k (elapse t (set k v ttl s)) ≡ some v
  pub get-elapse_other :
      (k j : Text) (v : V) (ttl t : ℕ) (s : State)
      → same k j ≡ false
      → get j (elapse t (set k v ttl s)) ≡ get j (elapse t s)
  pub get-elapse_add :
      (k : Text) (t u : ℕ) (s : State) → get k (elapse t (elapse u s)) ≡ get k (elapse (t + u) s)
  pub get-elapse_gone :
      (k : Text) (v : V) (ttl t : ℕ) (s : State) → ttl ≤ t → get k (elapse t (set k v ttl s)) ≡ none

pub record Queue : Type 1 where
  pub State : Type 0
  -- the items, the left end first
  pub items : State → List Text
  -- LPUSH key item
  pub lpush : Text → State → State
  -- BRPOP key, `none` after its timeout
  pub rpop : State → Option (Text × State)
  pub items-lpush : (x : Text) (q : State) → items (lpush x q) ≡ x ∷ items q
  pub rpop_none : (q : State) → items q ≡ [] → rpop q ≡ none
  pub rpop_some :
      (q : State) (xs : List Text) (x : Text)
      → items q ≡ xs ++ x ∷ []
      → (q' : State) × (rpop q ≡ some (x, q')) × (items q' ≡ xs)

pub get-delete_same :
    {V : Type 0} (keys : Keys V) (k : Text) (s : keys.State) → keys.get k (keys.delete k s) ≡ none
get-delete_same keys k s = rw (keys.get-delete k k s, same_refl k)
