-- ===== src/Coordinator/Keys.antt =====
-- The sets of step ids that internal/coordinator/executor.go keeps in Go maps: counting their keys.
use go_claw.Common.{
  suc, ◌≤◌, String, true, false, List, [], ◌∷◌, All, length, str_eq, if◌then◌else◌, ◌≡◌, inl, inr,
  arith, Bool-cases, str_eq-eq, eq_refl,
}
use go_claw.Coordinator.Plan.{PlanStep, contains, add_key, mark}

abbrev pub Distinct : List String → Type 0
Distinct [] = Unit
Distinct (k ∷ ks) = (contains ks k ≡ false) × Distinct ks

pub str_eq-flip : (s t : String) → str_eq s t ≡ false → str_eq t s ≡ false
str_eq-flip s t h = elim (Bool-cases (str_eq t s)) [
  | inl e ↦
      let p : t ≡ s = str_eq-eq t s e in
      let r : str_eq s s ≡ true = eq_refl s in
      let u : str_eq s s ≡ false = rw p at h in absurd (ground arith)
  | inr f ↦ f
]

-- One occurrence of a key taken out.
abbrev without : String → List String → List String
without k [] = []
without k (l ∷ ls) = if str_eq l k then ls else l ∷ without k ls

length-without :
    (k : String) (ls : List String) → contains ls k ≡ true → suc (length (without k ls)) ≡ length ls
length-without k [] h = absurd (ground arith)
length-without k (l ∷ ls) h = elim (Bool-cases (str_eq l k)) [
  | inl t ↦ ground arith
  | inr f ↦ let rest = length-without k ls (ground arith) in ground arith
]

contains-without :
    (k j : String) (ls : List String)
    → str_eq k j ≡ false
    → contains ls j ≡ true
    → contains (without k ls) j ≡ true
contains-without k j [] ne h = h
contains-without k j (l ∷ ls) ne h = elim (Bool-cases (str_eq l k)) [
  | inl t ↦ let e : l ≡ k = str_eq-eq l k t in let d : str_eq l j ≡ false = rw e ne in ground arith
  | inr f ↦ elim (Bool-cases (str_eq l j)) [
    | inl u ↦ ground arith
    | inr v ↦ let rest = contains-without k j ls ne (ground arith) in ground arith
  ]
]

-- Distinct keys that all lie in a list are no more than its elements.
pub Distinct-length :
    (ks ls : List String) → Distinct ks → All (λ k. contains ls k ≡ true) ks → length ks ≤ length ls
Distinct-length [] ls d h = omega arith
Distinct-length (k ∷ ks) ls d h =
    let rest = Distinct-length ks (without k ls) d.1 (kept ks d.0 h.1) in
    let fewer = length-without k ls h.0 in omega arith
  where
    kept :
        (js : List String)
        → contains js k ≡ false
        → All (λ j. contains ls j ≡ true) js
        → All (λ j. contains (without k ls) j ≡ true) js
    kept [] n g = tt
    kept (j ∷ js) n g = elim (Bool-cases (str_eq j k)) [
      | inl t ↦ absurd (ground arith)
      | inr f ↦ (contains-without k j ls (str_eq-flip j k f) g.0, kept js (ground arith) g.1)
    ]

-- What is in `keys` stays, and a key is in what it was added to.
pub contains-add_key :
    (keys : List String) (k j : String)
    → contains keys j ≡ true
    → contains (add_key keys k) j ≡ true
contains-add_key keys k j h = ground arith

pub added-contains : (keys : List String) (k : String) → contains (add_key keys k) k ≡ true
added-contains keys k = let e : str_eq k k ≡ true = eq_refl k in ground arith

pub Distinct-add_key : (keys : List String) (k : String) → Distinct keys → Distinct (add_key keys k)
Distinct-add_key keys k d = elim (Bool-cases (contains keys k)) [
  | inl t ↦ rw t d
  | inr f ↦ rw f (f, d)
]

pub contains-mark :
    (keys : List String) (w : List PlanStep) (j : String)
    → contains keys j ≡ true
    → contains (mark keys w) j ≡ true
contains-mark keys [] j h = h
contains-mark keys (s ∷ w) j h =
    contains-mark (add_key keys s.id) w j (contains-add_key keys s.id j h)

pub Distinct-mark :
    (keys : List String) (w : List PlanStep) → Distinct keys → Distinct (mark keys w)
Distinct-mark keys [] d = d
Distinct-mark keys (s ∷ w) d = Distinct-mark (add_key keys s.id) w (Distinct-add_key keys s.id d)

pub length-mark : (keys : List String) (w : List PlanStep) → length keys ≤ length (mark keys w)
length-mark keys [] = omega arith
length-mark keys (s ∷ w) =
    let rest = length-mark (add_key keys s.id) w in
    let here : length keys ≤ length (add_key keys s.id) = ground arith in omega arith
