-- ===== src/Infrastructure/SqliteStore/Unique.antt =====
-- The constraints of the `jobs` table of relayq/infrastructure/sqlite_store.py: the primary key and
-- the unique index.
use relayq.Prelude.{
  ℕ, String, ◌≡◌, refl, Bool, false, Option, none, some, List, [], ◌∷◌, ◌++◌, map, arith, str_eq,
  str_eq_comm, ◌||◌,
}
use relayq.Infrastructure.SqliteStore.{Row, has_id, has_key, same_key, key_taken, violates, updated}

-- No two rows share an id, nor a key.
abbrev pub IsUnique : List Row → Type 0
IsUnique [] = Unit
IsUnique (r ∷ rows) =
    (has_id r.id rows ≡ false) × (key_taken r.idempotency_key rows ≡ false) × IsUnique rows

has_id-append :
    (id : String) (rows : List Row) (r : Row)
    → has_id id rows ≡ false
    → str_eq r.id id ≡ false
    → has_id id (rows ++ r ∷ []) ≡ false
unfolding has_id
has_id-append id [] r h e = ground arith
has_id-append id (x ∷ rows) r h e = ground (arith, has_id-append id rows r)

has_key-append :
    (key : String) (rows : List Row) (r : Row)
    → has_key key rows ≡ false
    → same_key r.idempotency_key key ≡ false
    → has_key key (rows ++ r ∷ []) ≡ false
unfolding has_key
has_key-append key [] r h e = ground arith
has_key-append key (x ∷ rows) r h e = ground (arith, has_key-append key rows r)

-- Two values of the key column are equal and not NULL.
abbrev clash : Option String → Option String → Bool
clash none p = false
clash (some key) p = same_key p key

clash_comm : (o p : Option String) → clash o p ≡ clash p o
clash_comm none none = refl
clash_comm none (some b) = refl
clash_comm (some a) none = refl
clash_comm (some a) (some b) = str_eq_comm b a

key_taken-cons :
    (o : Option String) (x : Row) (rows : List Row)
    → key_taken o (x ∷ rows) ≡ (clash o x.idempotency_key || key_taken o rows)
unfolding has_key
key_taken-cons none x rows = refl
key_taken-cons (some key) x rows = refl

key_taken-append :
    (o : Option String) (rows : List Row) (r : Row)
    → key_taken o rows ≡ false
    → clash o r.idempotency_key ≡ false
    → key_taken o (rows ++ r ∷ []) ≡ false
key_taken-append none rows r h e = refl
key_taken-append (some key) rows r h e = has_key-append key rows r h e

pub IsUnique-append :
    (rows : List Row) (r : Row)
    → IsUnique rows
    → violates r rows ≡ false
    → IsUnique (rows ++ r ∷ [])
unfolding violates
IsUnique-append [] r u v = (refl, ground arith, tt)
IsUnique-append (x ∷ rows) r u v =
    let split = key_taken-cons r.idempotency_key x rows in
    let swap = clash_comm x.idempotency_key r.idempotency_key in
    (
      ground (arith, has_id-append x.id rows r, str_eq_comm x.id r.id),
      key_taken-append x.idempotency_key rows r u.1 (ground arith),
      IsUnique-append rows r u.2 (ground arith),
    )

-- An update of status and attempts touches neither ids nor keys.
has_id-updated :
    (id i st : String) (n : Option ℕ) (rows : List Row)
    → has_id id (map (updated i st n) rows) ≡ has_id id rows
unfolding has_id updated
has_id-updated id i st n [] = refl
has_id-updated id i st n (x ∷ rows) = ground (arith, has_id-updated id i st n rows)

has_key-updated :
    (key i st : String) (n : Option ℕ) (rows : List Row)
    → has_key key (map (updated i st n) rows) ≡ has_key key rows
unfolding has_key updated
has_key-updated key i st n [] = refl
has_key-updated key i st n (x ∷ rows) = ground (arith, has_key-updated key i st n rows)

key_taken-updated :
    (o : Option String) (i st : String) (n : Option ℕ) (rows : List Row)
    → key_taken o (map (updated i st n) rows) ≡ key_taken o rows
key_taken-updated none i st n rows = refl
key_taken-updated (some key) i st n rows = has_key-updated key i st n rows

pub updated-keys :
    (i st : String) (n : Option ℕ) (x : Row)
    → ((updated i st n x).id ≡ x.id) × ((updated i st n x).idempotency_key ≡ x.idempotency_key)
unfolding updated
updated-keys i st n x = ground arith

pub IsUnique-updated :
    (i st : String) (n : Option ℕ) (rows : List Row)
    → IsUnique rows
    → IsUnique (map (updated i st n) rows)
IsUnique-updated i st n [] u = tt
IsUnique-updated i st n (x ∷ rows) u =
    let same = updated-keys i st n x in
    (
      rw (same.0, has_id-updated x.id i st n rows) u.0,
      rw (same.1, key_taken-updated x.idempotency_key i st n rows) u.1,
      IsUnique-updated i st n rows u.2,
    )
