-- ===== src/Dns/Typosquat/Levenshtein/Scripts.antt =====
-- Edit scripts, the meaning of the edit distance, and the recursive distance that is least.
use scamlens.Base.{
  ℕ, suc, ◌+◌, ◌≤◌, min, Text, [], ◌∷◌, ◌++◌, length, ◌==◌, ◌≡◌, refl, subst, arith, true, false,
  ◌⊎◌, Bool-cases, inl, inr, ==_iff, append-nil, sym,
}
use mathlib.Core.List.{reverse, reverse-cons}
use scamlens.Dns.Typosquat.Levenshtein.{cost, abs_diff}

-- `a` becomes `b` by `n` insertions, deletions and substitutions of one character.
pub data Edit : Text → Text → ℕ → Type 0 where
  done : Edit [] [] 0
  keep : {a b : Text} {n : ℕ} (c : ℕ) → Edit a b n → Edit (c ∷ a) (c ∷ b) n
  substitute : {a b : Text} {n : ℕ} (c d : ℕ) → Edit a b n → Edit (c ∷ a) (d ∷ b) (suc n)
  delete : {a b : Text} {n : ℕ} (c : ℕ) → Edit a b n → Edit (c ∷ a) b (suc n)
  insert : {a b : Text} {n : ℕ} (d : ℕ) → Edit a b n → Edit a (d ∷ b) (suc n)

recost : {a b : Text} {n m : ℕ} → n ≡ m → Edit a b n → Edit a b m
recost {a} {b} e = subst (λ k. Edit a b k) e

rewrite : {a x b y : Text} {n m : ℕ} → a ≡ x → b ≡ y → n ≡ m → Edit a b n → Edit x y m
rewrite {a} {x} {b} {y} {n} {m} p q r e =
    subst (λ t. Edit t y m) p (subst (λ t. Edit a t m) q (recost r e))

unfoldable pub distance : Text → Text → ℕ
unfolding cost
distance [] b = length b
distance (c ∷ a) [] = suc (length a)
distance (c ∷ a) (d ∷ b) =
    min (min (distance (c ∷ a) b + 1) (distance a (d ∷ b) + 1)) (distance a b + cost c d)

insert_all : (b : Text) → Edit [] b (length b)
insert_all [] = done
insert_all (d ∷ b) = insert d (insert_all b)

delete_all : (a : Text) → Edit a [] (length a)
delete_all [] = done
delete_all (c ∷ a) = delete c (delete_all a)

replace : {a b : Text} {n : ℕ} (c d : ℕ) → Edit a b n → Edit (c ∷ a) (d ∷ b) (n + cost c d)
unfolding cost
replace {a} {b} {n} c d e = elim (Bool-cases (c == d)) [
  | inl same ↦
      rw same (
        recost (omega arith) (subst (λ x. Edit (c ∷ a) (x ∷ b) n) ((==_iff c d).0 same) (keep c e)))
  | inr other ↦ rw other (recost (omega arith) (substitute c d e))
]

-- Of two costs that a script has, the smaller.
min_cost : {a b : Text} (m n : ℕ) → Edit a b m → Edit a b n → Edit a b (min m n)
min_cost {a} {b} m n p q = pick (Bool-cases (m == min m n))
  where
    open_min : (m ≡ min m n) → Edit a b (min m n)
    open_min e = recost e p

    pick : ((m == min m n) ≡ true) ⊎ ((m == min m n) ≡ false) → Edit a b (min m n)
    pick (inl e) = open_min ((==_iff _ _).0 e)
    pick (inr e) = recost (ground arith) q

-- The recursive distance is the cost of a script.
pub distance-Edit : (a b : Text) → Edit a b (distance a b)
unfolding distance
distance-Edit [] b = insert_all b
distance-Edit (c ∷ a) [] = delete_all (c ∷ a)
distance-Edit (c ∷ a) (d ∷ b) =
    min_cost _ _
      (min_cost _ _ (recost (omega arith) (insert d (distance-Edit (c ∷ a) b)))
        (recost (omega arith) (delete c (distance-Edit a (d ∷ b)))))
      (replace c d (distance-Edit a b))

pub distance-nil : (a : Text) → distance a [] ≡ length a
unfolding distance
distance-nil [] = refl
distance-nil (c ∷ a) = refl

distance-insert : (a b : Text) (d : ℕ) → distance a (d ∷ b) ≤ suc (distance a b)
unfolding distance
distance-insert [] b d = omega arith
distance-insert (c ∷ a) b d = omega arith

distance-delete : (a b : Text) (c : ℕ) → distance (c ∷ a) b ≤ suc (distance a b)
unfolding distance
distance-delete a [] c = omega (arith, distance-nil a)
distance-delete a (d ∷ b) c = omega arith

distance-keep : (a b : Text) (c : ℕ) → distance (c ∷ a) (c ∷ b) ≤ distance a b
unfolding distance
distance-keep a b c = ground arith

distance-substitute : (a b : Text) (c d : ℕ) → distance (c ∷ a) (d ∷ b) ≤ suc (distance a b)
unfolding distance
distance-substitute a b c d = ground arith

-- No script is cheaper.
pub distance-le : {a b : Text} {n : ℕ} → Edit a b n → distance a b ≤ n
distance-le done = unfold distance in omega arith
distance-le (keep {a} {b} c e) = omega (arith, distance-keep a b c, distance-le e)
distance-le (substitute {a} {b} c d e) = omega (arith, distance-substitute a b c d, distance-le e)
distance-le (delete {a} {b} c e) = omega (arith, distance-delete a b c, distance-le e)
distance-le (insert {a} {b} d e) = omega (arith, distance-insert a b d, distance-le e)

append : {a b x y : Text} {n m : ℕ} → Edit a b n → Edit x y m → Edit (a ++ x) (b ++ y) (n + m)
append {x} {y} {m} done f = recost (omega arith) f
append (keep c e) f = keep c (append e f)
append {x} {y} {m} (substitute {a} {b} {n} c d e) f =
    recost (omega arith) (substitute c d (append e f))
append {x} {y} {m} (delete {a} {b} {n} c e) f = recost (omega arith) (delete c (append e f))
append {x} {y} {m} (insert {a} {b} {n} d e) f = recost (omega arith) (insert d (append e f))

-- A script can be run from the other end.
pub reverse_script : {a b : Text} {n : ℕ} → Edit a b n → Edit (reverse a) (reverse b) n
reverse_script done = done
reverse_script (keep {a} {b} c e) =
    rewrite (sym (reverse-cons c a)) (sym (reverse-cons c b)) (omega arith)
      (append (reverse_script e) (keep c done))
reverse_script (substitute {a} {b} c d e) =
    rewrite (sym (reverse-cons c a)) (sym (reverse-cons d b)) (omega arith)
      (append (reverse_script e) (substitute c d done))
reverse_script (delete {a} {b} c e) =
    rewrite (sym (reverse-cons c a)) (append-nil (reverse b)) (omega arith)
      (append (reverse_script e) (delete c done))
reverse_script (insert {a} {b} d e) =
    rewrite (append-nil (reverse a)) (sym (reverse-cons d b)) (omega arith)
      (append (reverse_script e) (insert d done))

-- Lengths that differ by much need as many edits.
pub abs_diff-le : {a b : Text} {n : ℕ} → Edit a b n → abs_diff (length a) (length b) ≤ n
unfolding abs_diff
abs_diff-le done = omega arith
abs_diff-le (keep c e) = omega (arith, abs_diff-le e)
abs_diff-le (substitute c d e) = omega (arith, abs_diff-le e)
abs_diff-le (delete c e) = omega (arith, abs_diff-le e)
abs_diff-le (insert d e) = omega (arith, abs_diff-le e)
