-- ===== src/Prelude/Sets.antt =====
-- Sets of numbers as lists: std::unordered_set without an order that matters, std::set in ascending
-- order.
use Prim.Native.Nat.{ℕ}
use mathlib.Core.Path.{◌≡◌}
use mathlib.Core.Bool.{Bool, true, false}
use mathlib.Core.List.{List, [], ◌∷◌}
use native.Mathlib.Omega.{arith}
use nullrvsim.Prelude.Tests.{◌==◌, ltb, if◌then◌else◌}

unfoldable pub contains : ℕ → List ℕ → Bool
contains l [] = false
contains l (k ∷ ks) = let rest = contains l ks in if k == l then true else rest

-- Every copy goes.
unfoldable pub remove_all : ℕ → List ℕ → List ℕ
remove_all l [] = []
remove_all l (k ∷ ks) = let rest = remove_all l ks in if k == l then rest else k ∷ rest

-- `insert` of std::unordered_set
unfoldable pub include : ℕ → List ℕ → List ℕ
include l ks = if contains l ks then ks else l ∷ ks

-- `insert` of std::set
unfoldable pub insert_sorted : ℕ → List ℕ → List ℕ
insert_sorted l [] = l ∷ []
insert_sorted l (k ∷ ks) =
    let rest = insert_sorted l ks in
    if ltb l k then l ∷ k ∷ ks else if k == l then k ∷ ks else k ∷ rest

pub contains-remove_all :
    (l k : ℕ) (ks : List ℕ)
    → contains k (remove_all l ks) ≡ (if k == l then false else contains k ks)
unfolding contains remove_all
contains-remove_all l k [] = ground arith
contains-remove_all l k (j ∷ ks) = ground (arith, contains-remove_all l k ks)

pub contains-include :
    (l k : ℕ) (ks : List ℕ) → contains k (include l ks) ≡ (if k == l then true else contains k ks)
unfolding contains include
contains-include l k ks = ground arith

pub contains-insert_sorted :
    (l k : ℕ) (ks : List ℕ)
    → contains k (insert_sorted l ks) ≡ (if k == l then true else contains k ks)
unfolding contains insert_sorted
contains-insert_sorted l k [] = ground arith
contains-insert_sorted l k (j ∷ ks) = ground (arith, contains-insert_sorted l k ks)
