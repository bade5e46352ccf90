-- ===== src/Deps/IndexSet.antt =====
-- `BTreeSet<usize>` as a list without repetition: the sets of crates/arazzo-runtime's deps.rs are
-- asked for their members and their size, never for their order.
use arazzo_cli.Base.{
  ℕ, suc, ◌≡◌, refl, Bool, true, false, not, ◌&&◌, ◌||◌, List, [], ◌∷◌, length, ◌==◌, if◌then◌else◌,
  ap, arith, inl, inr, Bool-cases,
}

abbrev pub contains : ℕ → List ℕ → Bool
contains x [] = false
contains x (y ∷ ys) = x == y || contains x ys

abbrev pub insert : ℕ → List ℕ → List ℕ
insert x s = if contains x s then s else x ∷ s

-- `remove`; whether there was something to remove is `contains`.
abbrev pub remove : ℕ → List ℕ → List ℕ
remove x [] = []
remove x (y ∷ ys) = let rest = remove x ys in if x == y then rest else y ∷ rest

abbrev pub distinct : List ℕ → Bool
distinct [] = true
distinct (x ∷ xs) = not (contains x xs) && distinct xs

pub distinct-insert : (x : ℕ) (s : List ℕ) → distinct s ≡ true → distinct (insert x s) ≡ true
distinct-insert x s h = elim (Bool-cases (contains x s)) [ inl e ↦ rw e h | inr e ↦ rw e (rw e h) ]

pub contains-insert : (z x : ℕ) (s : List ℕ) → contains z (insert x s) ≡ (z == x || contains z s)
contains-insert z x s = elim (Bool-cases (contains x s)) [
  | inl e ↦ rw e (ground arith)
  | inr e ↦ rw e refl
]

pub contains-remove :
    (z x : ℕ) (s : List ℕ) → contains z (remove x s) ≡ (not (z == x) && contains z s)
contains-remove z x [] = ground arith
contains-remove z x (y ∷ s) = ground (arith, contains-remove z x s)

pub distinct-remove : (x : ℕ) (s : List ℕ) → distinct s ≡ true → distinct (remove x s) ≡ true
distinct-remove x [] h = refl
distinct-remove x (y ∷ s) h = ground (arith, distinct-remove x s, contains-remove y x s)

pub length-remove_absent :
    (x : ℕ) (s : List ℕ) → contains x s ≡ false → length (remove x s) ≡ length s
length-remove_absent x [] h = refl
length-remove_absent x (y ∷ s) h = ground (arith, length-remove_absent x s)

pub length-remove_member :
    (x : ℕ) (s : List ℕ)
    → distinct s ≡ true
    → contains x s ≡ true
    → suc (length (remove x s)) ≡ length s
length-remove_member x [] h m = absurd (ground arith)
length-remove_member x (y ∷ s) h m = elim (Bool-cases (x == y)) [
  | inl e ↦ rw e (ap suc (length-remove_absent x s (here e)))
  | inr e ↦ rw e (ap suc (length-remove_member x s (ground arith) (ground arith)))
]
  where
    same : (x == y) ≡ true → x ≡ y
    same e = ground arith

    here : (x == y) ≡ true → contains x s ≡ false
    here e = rw (same e) (ground arith)
