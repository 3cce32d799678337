-- ===== src/Api/Reservations.antt =====
-- The names that a rollback claims, of internal/api/rollback.go. The map holds only true, so it
-- is a list of names; a method runs under its mutex, so it is one step.
use beanstore.Base.{
  ◌≡◌, refl, arith, eq_iff, String, Bool, true, false, ◌||◌, ◌&&◌, ◌⊎◌, inl, inr, Bool-cases, List,
  [], ◌∷◌, ◌++◌, str_eq, contains, if◌then◌else◌,
}

pub record NameReservations : Type 0 where
  pub names : List String

abbrev pub new_name_reservations : NameReservations
new_name_reservations = record { names = [] }

unfoldable pub is_reserved : List String → NameReservations → Bool
is_reserved [] r = false
is_reserved (name ∷ rest) r = contains name r.names || is_reserved rest r

unfoldable pub reserve : List String → NameReservations → Bool × NameReservations
reserve names r =
    if is_reserved names r then (false, r) else (true, record { names = names ++ r.names })

drop_name : String → List String → List String
drop_name name [] = []
drop_name name (n ∷ ns) = let rest = drop_name name ns in if str_eq n name then rest else n ∷ rest

unfoldable pub release_names : List String → NameReservations → NameReservations
unfolding drop_name
release_names [] r = r
release_names (name ∷ rest) r = release_names rest (record { names = drop_name name r.names })

contains-drop :
    (x name : String) (ns : List String)
    → contains x (drop_name name ns) ≡ (if str_eq x name then false else contains x ns)
unfolding contains drop_name
contains-drop x name [] = ground arith
contains-drop x name (n ∷ ns) =
    ground (arith, contains-drop x name ns, eq_iff n name, eq_iff x n, eq_iff x name)

contains-append :
    (x : String) (ns ms : List String) → contains x (ns ++ ms) ≡ contains x ns || contains x ms
unfolding contains
contains-append x [] ms = refl
contains-append x (n ∷ ns) ms = ground (arith, contains-append x ns ms)

contains-release :
    (x : String) (names : List String) (r : NameReservations)
    → contains x (release_names names r).names
      ≡ (if contains x names then false else contains x r.names)
unfolding release_names contains
contains-release x [] r = refl
contains-release x (name ∷ rest) r = ground (
  arith,
  contains-release x rest (record { names = drop_name name r.names }),
  contains-drop x name r.names,
)

is_reserved-claimed :
    (x : String) (names : List String) (r : NameReservations)
    → is_reserved names r ≡ false
    → contains x names ≡ true
    → contains x r.names ≡ false
unfolding is_reserved contains
is_reserved-claimed x [] r h k = ground arith
is_reserved-claimed x (name ∷ rest) r h k =
    ground (arith, is_reserved-claimed x rest r, eq_iff x name)

reserve-true :
    (names : List String) (r : NameReservations)
    → (reserve names r).0 ≡ true
    → (is_reserved names r ≡ false) × ((reserve names r).1.names ≡ names ++ r.names)
unfolding reserve
reserve-true names r h = ground arith

-- A name that is taken already.
taken_name :
    (names : List String) (r : NameReservations)
    → is_reserved names r ≡ true
    → (y : String) × (contains y names ≡ true) × (contains y r.names ≡ true)
unfolding is_reserved contains
taken_name [] r h = absurd (cc h)
taken_name (name ∷ rest) r h = elim (Bool-cases (contains name r.names)) [
  | inl taken ↦ (name, ground (arith, eq_iff name name), taken)
  | inr free ↦ let (y, listed, taken) = taken_name rest r (ground arith) in (y, ground arith, taken)
]

reserve-false :
    (names : List String) (r : NameReservations)
    → (reserve names r).0 ≡ false
    → (is_reserved names r ≡ true) × ((reserve names r).1 ≡ r)
unfolding reserve
reserve-false names r h = elim (Bool-cases (is_reserved names r)) [
  | inl taken ↦ (taken, rw taken refl)
  | inr free ↦ absurd (ground arith)
]

claimed :
    (names : List String) (r : NameReservations) (x : String)
    → (reserve names r).0 ≡ true
    → (contains x (reserve names r).1.names ≡ contains x names || contains x r.names)
      × (contains x names && contains x r.names ≡ false)
      × (contains x (release_names names (reserve names r).1).names ≡ contains x r.names)
claimed names r x h =
    let (free, added) = reserve-true names r h in
    let after : contains x (reserve names r).1.names ≡ contains x names || contains x r.names =
      rw added (contains-append x names r.names) in
    (
      after,
      ground (arith, is_reserved-claimed x names r),
      ground (arith, contains-release x names (reserve names r).1, is_reserved-claimed x names r),
    )

-- A claim either succeeds: it makes its names taken and no other name, none of them was taken
-- before, and its release leaves exactly the names that were taken before it. Or it fails: one of
-- its names was taken, and the reservations are as they were.
pub reserve_release :
    (names : List String) (r : NameReservations) (x : String)
    → (((reserve names r).0 ≡ true)
        × (contains x (reserve names r).1.names ≡ contains x names || contains x r.names)
        × (contains x names && contains x r.names ≡ false)
        × (contains x (release_names names (reserve names r).1).names ≡ contains x r.names))
      ⊎ (((reserve names r).0 ≡ false)
          × ((reserve names r).1 ≡ r)
          × ((y : String) × (contains y names ≡ true) × (contains y r.names ≡ true)))
reserve_release names r x = elim (Bool-cases (reserve names r).0) [
  | inl won ↦ let (a, b, c) = claimed names r x won in inl (won, a, b, c)
  | inr lost ↦
      let (taken, same) = reserve-false names r lost in inr (lost, same, taken_name names r taken)
]
