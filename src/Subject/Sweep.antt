-- ===== src/Subject/Sweep.antt =====
-- What one pass of `ProcessMarkRemoveAllListeners` (INCLUDE/CSubject.hpp) removes.
use cpp_npl.Base.{ℕ, ◌≡◌, refl, ap, ◌≢◌, Bool, true, false, List, [], ◌∷◌, ◌++◌, arith}
use cpp_npl.Subject.{without}
use cpp_npl.Subject.Notify.{remove_aliased, sweep}

-- Everything in the list is something else than `a`.
abbrev pub Absent : ℕ → List ℕ → Type 0
Absent a [] = Unit {0}
Absent a (x ∷ xs) = (x ≢ a) × Absent a xs

-- No observer stands twice.
abbrev pub Distinct : List ℕ → Type 0
Distinct [] = Unit {0}
Distinct (x ∷ xs) = Absent x xs × Distinct xs

-- None of the list is marked.
abbrev pub Unmarked : (ℕ → Bool) → List ℕ → Type 0
Unmarked marked [] = Unit {0}
Unmarked marked (x ∷ xs) = (marked x ≡ false) × Unmarked marked xs

pub without-Absent : (a : ℕ) (xs : List ℕ) → Absent a xs → without a xs ≡ xs
without-Absent a [] h = refl
without-Absent a (x ∷ xs) (h, hs) = ground (arith, without-Absent a xs hs)

pub remove_aliased-Absent :
    (a : ℕ) (xs : List ℕ) → Absent a xs → Distinct xs → remove_aliased a xs ≡ xs
remove_aliased-Absent a [] h d = refl
remove_aliased-Absent a (x ∷ xs) (h, hs) (d, ds) = ground (arith, without-Absent x xs d)

behind :
    (front : List ℕ) (x : ℕ) (back : List ℕ)
    → Distinct (front ++ x ∷ back)
    → Absent x back × Distinct back
behind [] x back d = d
behind (y ∷ front) x back (d, ds) = behind front x back ds

-- One pass over observers of which none stands twice removes the first that is marked, and that
-- one only, whatever is marked behind it.
pub sweep_removes_first :
    (marked : ℕ → Bool) (front : List ℕ) (x : ℕ) (back : List ℕ)
    → Distinct (front ++ x ∷ back)
    → Unmarked marked front
    → marked x ≡ true
    → sweep marked (front ++ x ∷ back) ≡ front ++ back
unfolding sweep
sweep_removes_first marked [] x back (d, ds) u m = rw m (remove_aliased-Absent x back d ds)
sweep_removes_first marked (y ∷ front) x back (d, ds) (u, us) m =
    rw u (ap (◌∷◌ y) (sweep_removes_first marked front x back ds us m))
