-- ===== src/Redis/Memory.antt =====
-- Instances of the interfaces: key spaces with the seconds that each entry has left, and a list.
use scamlens.Base.{
  ℕ, ◌+◌, ◌-◌, Bool, true, false, ◌≡◌, ◌≤◌, ◌<◌, refl, arith, Text, List, [], ◌∷◌, ◌++◌, Option,
  none, some, same, same_iff, same_refl, ltb, if◌then◌else◌,
}
use scamlens.Redis.{Keys, Queue}

abbrev Entries : Type 0 → Type 0
Entries V = List (Text × V × ℕ)

module _ {V : Type 0} where
  find : Text → Entries V → Option V
  find k [] = none
  find k ((j, v, left) ∷ s) = if same j k then (if ltb 0 left then some v else none) else find k s

  store : Text → V → ℕ → Entries V → Entries V
  store k v ttl s = (k, v, ttl) ∷ s

  store_nx : Text → V → ℕ → Entries V → Bool × Entries V
  unfolding find store
  store_nx k v ttl s = elim (find k s) [ none ↦ (true, store k v ttl s) | some w ↦ (false, s) ]

  remove : Text → Entries V → Entries V
  remove k [] = []
  remove k ((j, v, left) ∷ s) = if same j k then remove k s else (j, v, left) ∷ remove k s

  pass : ℕ → Entries V → Entries V
  pass t [] = []
  pass t ((j, v, left) ∷ s) = (j, v, left - t) ∷ pass t s

  find-store :
      (k j : Text) (v : V) (ttl : ℕ) (s : Entries V)
      → 0 < ttl
      → find j (store k v ttl s) ≡ (if same k j then some v else find j s)
  unfolding find store
  find-store k j v ttl s h = ground arith

  store_nx-free :
      (k : Text) (v : V) (ttl : ℕ) (s : Entries V)
      → find k s ≡ none
      → store_nx k v ttl s ≡ (true, store k v ttl s)
  unfolding store_nx
  store_nx-free k v ttl s h = rw (h, store_nx)

  store_nx-held :
      (k : Text) (v w : V) (ttl : ℕ) (s : Entries V)
      → find k s ≡ some w
      → store_nx k v ttl s ≡ (false, s)
  unfolding store_nx
  store_nx-held k v w ttl s h = rw (h, store_nx)

  find-remove :
      (k j : Text) (s : Entries V) → find j (remove k s) ≡ (if same k j then none else find j s)
  unfolding find remove
  find-remove k j [] = ground arith
  find-remove k j ((i, v, left) ∷ s) =
      ground (arith, same_iff i k, same_iff i j, same_iff k j, find-remove k j s)

  find-pass_none : (k : Text) (t : ℕ) (s : Entries V) → find k s ≡ none → find k (pass t s) ≡ none
  unfolding find pass
  find-pass_none k t [] h = refl
  find-pass_none k t ((j, v, left) ∷ s) h = ground (arith, find-pass_none k t s)

  find-pass_kept :
      (k : Text) (v : V) (ttl t : ℕ) (s : Entries V)
      → t < ttl
      → find k (pass t (store k v ttl s)) ≡ some v
  unfolding find pass store
  find-pass_kept k v ttl t s h = ground (arith, (same_iff k k).1 refl)

  find-pass_other :
      (k j : Text) (v : V) (ttl t : ℕ) (s : Entries V)
      → same k j ≡ false
      → find j (pass t (store k v ttl s)) ≡ find j (pass t s)
  unfolding find pass store
  find-pass_other k j v ttl t s h = rw h refl

  find-pass_add :
      (k : Text) (t u : ℕ) (s : Entries V) → find k (pass t (pass u s)) ≡ find k (pass (t + u) s)
  unfolding find pass
  find-pass_add k t u [] = refl
  find-pass_add k t u ((j, v, left) ∷ s) =
      let e : left - u - t ≡ left - (t + u) = omega arith in rw (e, find-pass_add k t u s) refl

  find-pass_gone :
      (k : Text) (v : V) (ttl t : ℕ) (s : Entries V)
      → ttl ≤ t
      → find k (pass t (store k v ttl s)) ≡ none
  unfolding find pass store
  find-pass_gone k v ttl t s h = ground (arith, (same_iff k k).1 refl)

unfoldable pub memory_keys : (V : Type 0) → Keys V
unfolding find store store_nx remove pass find-store store_nx-free store_nx-held find-remove
    find-pass_none find-pass_kept find-pass_other find-pass_add find-pass_gone
memory_keys V = record {
  State = List (Text × V × ℕ);
  get = find;
  set = store;
  set_nx = store_nx;
  delete = remove;
  elapse = pass;
  get-set = find-store;
  set_nx-free = store_nx-free;
  set_nx-held = store_nx-held;
  get-delete = find-remove;
  get-elapse_none = find-pass_none;
  get-elapse_kept = find-pass_kept;
  get-elapse_other = find-pass_other;
  get-elapse_add = find-pass_add;
  get-elapse_gone = find-pass_gone;
}

abbrev cons_item : Text → Option (Text × List Text) → Option (Text × List Text)
cons_item y none = some (y, [])
cons_item y (some (x, xs)) = some (x, y ∷ xs)

pop_last : List Text → Option (Text × List Text)
pop_last [] = none
pop_last (y ∷ ys) = cons_item y (pop_last ys)

pop_last-append : (xs : List Text) (x : Text) → pop_last (xs ++ x ∷ []) ≡ some (x, xs)
unfolding pop_last
pop_last-append [] x = refl
pop_last-append (y ∷ ys) x = rw (pop_last-append ys x)

unfoldable pub memory_queue : Queue
unfolding pop_last pop_last-append
memory_queue = record {
  State = List Text;
  items = λ q. q;
  lpush = λ x q. x ∷ q;
  rpop = pop_last;
  items-lpush = λ x q. refl;
  rpop_none = λ q h. rw h;
  rpop_some = λ q xs x h. (xs, rw h (pop_last-append xs x), refl);
}

-- The empty key space and the empty queue.
unfoldable pub no_entries : (V : Type 0) → (memory_keys V).State
unfolding memory_keys
no_entries V = []

unfoldable pub no_items : memory_queue.State
unfolding memory_queue
no_items = []

pub get-no_entries : (V : Type 0) (k : Text) → (memory_keys V).get k (no_entries V) ≡ none
unfolding memory_keys no_entries find
get-no_entries V k = refl

pub get-set_same :
    (V : Type 0) (k : Text) (v : V) (s : (memory_keys V).State)
    → (memory_keys V).get k ((memory_keys V).set k v 60 s) ≡ some v
get-set_same V k v s = rw ((memory_keys V).get-set k k v 60 s (omega arith), same_refl k)
