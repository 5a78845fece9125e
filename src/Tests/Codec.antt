-- ===== src/Tests/Codec.antt =====
-- A codec of histories for the toy environment: every update is written field by field, texts and
-- blobs up to a zero, and read back by a machine that holds the fields read so far.
use Prim.Native.Nat.{Ordering, compare}
use Prim.Native.Char.{Char, char, code, nul, IsLt, IsScalar}
use text.Mathlib.TextEquality.{Char-path}
use xirtam_core.Prelude.{
  ℕ, zero, suc, ◌≡◌, refl, ◌∙◌, ap, Option, none, some, String, List, [], ◌∷◌,
}
use xirtam_core.Structs.{Bytes, DirectoryUpdate, DirectoryUpdateInner, add_owner, del_owner, update}

abbrev BothLt : Ordering → Ordering → Type 0
BothLt Ordering.lt o = IsLt o
BothLt Ordering.eq _ = ⊥
BothLt Ordering.gt _ = ⊥

abbrev Scalar : Ordering → Ordering → Ordering → Type 0
Scalar Ordering.lt _ _ = Unit
Scalar Ordering.eq o p = BothLt o p
Scalar Ordering.gt o p = BothLt o p

abbrev lt? : (o : Ordering) → Option (IsLt o)
lt? Ordering.lt = some tt
lt? Ordering.eq = none
lt? Ordering.gt = none

abbrev both_lt? : (o p : Ordering) → Option (BothLt o p)
both_lt? Ordering.lt p = lt? p
both_lt? Ordering.eq p = none
both_lt? Ordering.gt p = none

abbrev scalar? : (o p q : Ordering) → Option (Scalar o p q)
scalar? Ordering.lt p q = some tt
scalar? Ordering.eq p q = both_lt? p q
scalar? Ordering.gt p q = both_lt? p q

lt?_found : (o : Ordering) → IsLt o → (r : IsLt o) × (lt? o ≡ some r)
lt?_found Ordering.lt p = (tt, refl)
lt?_found Ordering.eq p = elim p [ ]
lt?_found Ordering.gt p = elim p [ ]

both_lt?_found : (o p : Ordering) → BothLt o p → (r : BothLt o p) × (both_lt? o p ≡ some r)
both_lt?_found Ordering.lt p h = lt?_found p h
both_lt?_found Ordering.eq p h = elim h [ ]
both_lt?_found Ordering.gt p h = elim h [ ]

scalar?_found : (o p q : Ordering) → Scalar o p q → (r : Scalar o p q) × (scalar? o p q ≡ some r)
scalar?_found Ordering.lt p q h = (tt, refl)
scalar?_found Ordering.eq p q h = both_lt?_found p q h
scalar?_found Ordering.gt p q h = both_lt?_found p q h

abbrev is_scalar? : (n : ℕ) → Option (IsScalar n)
is_scalar? n = scalar? (compare n 55296) (compare 57343 n) (compare n 1114112)

abbrev char_from : (n : ℕ) → Option (IsScalar n) → Char
char_from n (some p) = char n p
char_from n none = nul

char_from-code : (c : Char) → char_from (code c) (is_scalar? (code c)) ≡ c
char_from-code (char n p) =
    let (q, found) = scalar?_found (compare n 55296) (compare 57343 n) (compare n 1114112) p in
    ap (char_from n) found ∙ Char-path (char n q) (char n p) refl

abbrev write_text : String → Bytes → Bytes
write_text String.[] rest = 0 ∷ rest
write_text (String.◌∷◌ c s) rest = suc (code c) ∷ write_text s rest

abbrev write_bytes : Bytes → Bytes → Bytes
write_bytes [] rest = 0 ∷ rest
write_bytes (b ∷ bs) rest = suc b ∷ write_bytes bs rest

abbrev write_inner : DirectoryUpdateInner → Bytes → Bytes
write_inner (add_owner k) rest = 0 ∷ k ∷ rest
write_inner (del_owner k) rest = 1 ∷ k ∷ rest
write_inner (update b) rest = 2 ∷ write_text b.kind (write_bytes b.inner rest)

abbrev pub write_history : List DirectoryUpdate → Bytes
write_history [] = 0 ∷ []
write_history (u ∷ us) =
    suc u.prev_update_hash ∷ u.signature ∷ write_inner u.update_type (write_history us)

pub data Mode : Type 0 where
  at_update : Mode
  at_signature : ℕ → Mode
  at_tag at_added at_deleted : ℕ → ℕ → Mode
  at_kind : ℕ → ℕ → (String → String) → Mode
  at_inner : ℕ → ℕ → String → (Bytes → Bytes) → Mode

abbrev prepend :
    ℕ → ℕ → DirectoryUpdateInner → Option (List DirectoryUpdate) → Option (List DirectoryUpdate)
prepend prev sig t none = none
prepend prev sig t (some us) =
    some (record { prev_update_hash = prev; update_type = t; signature = sig } ∷ us)

abbrev read : Mode → Bytes → Option (List DirectoryUpdate)
read mode [] = none
read at_update (zero ∷ bs) = some []
read at_update (suc prev ∷ bs) = read (at_signature prev) bs
read (at_signature prev) (sig ∷ bs) = read (at_tag prev sig) bs
read (at_tag prev sig) (zero ∷ bs) = read (at_added prev sig) bs
read (at_tag prev sig) (suc zero ∷ bs) = read (at_deleted prev sig) bs
read (at_tag prev sig) (suc (suc n) ∷ bs) = read (at_kind prev sig (λ s. s)) bs
read (at_added prev sig) (k ∷ bs) = prepend prev sig (add_owner k) (read at_update bs)
read (at_deleted prev sig) (k ∷ bs) = prepend prev sig (del_owner k) (read at_update bs)
read (at_kind prev sig f) (zero ∷ bs) = read (at_inner prev sig (f String.[]) (λ i. i)) bs
read (at_kind prev sig f) (suc n ∷ bs) =
    read (at_kind prev sig (λ s. f (String.◌∷◌ (char_from n (is_scalar? n)) s))) bs
read (at_inner prev sig kind f) (zero ∷ bs) =
    prepend prev sig (update (record { kind = kind; inner = f [] })) (read at_update bs)
read (at_inner prev sig kind f) (suc b ∷ bs) = read (at_inner prev sig kind (λ i. f (b ∷ i))) bs

abbrev pub read_history : Bytes → Option (List DirectoryUpdate)
read_history bs = read at_update bs

read-write_bytes :
    (prev sig : ℕ) (kind : String) (f : Bytes → Bytes) (b rest : Bytes)
    → read (at_inner prev sig kind f) (write_bytes b rest)
      ≡ prepend prev sig (update (record { kind = kind; inner = f b })) (read at_update rest)
read-write_bytes prev sig kind f [] rest = refl
read-write_bytes prev sig kind f (b ∷ bs) rest =
    read-write_bytes prev sig kind (λ i. f (b ∷ i)) bs rest

read-write_text :
    (prev sig : ℕ) (f : String → String) (s : String) (rest : Bytes)
    → read (at_kind prev sig f) (write_text s rest) ≡ read (at_inner prev sig (f s) (λ i. i)) rest
read-write_text prev sig f String.[] rest = refl
read-write_text prev sig f (String.◌∷◌ c s) rest =
    read-write_text prev sig (λ t. f (String.◌∷◌ (char_from (code c) (is_scalar? (code c))) t)) s
      rest
    ∙ ap (λ d. read (at_inner prev sig (f (String.◌∷◌ d s)) (λ i. i)) rest) (char_from-code c)

read-write_inner :
    (prev sig : ℕ) (t : DirectoryUpdateInner) (rest : Bytes)
    → read (at_tag prev sig) (write_inner t rest) ≡ prepend prev sig t (read at_update rest)
read-write_inner prev sig (add_owner k) rest = refl
read-write_inner prev sig (del_owner k) rest = refl
read-write_inner prev sig (update b) rest =
    read-write_text prev sig (λ s. s) b.kind (write_bytes b.inner rest)
    ∙ read-write_bytes prev sig b.kind (λ i. i) b.inner rest

pub read-write_history : (us : List DirectoryUpdate) → read_history (write_history us) ≡ some us
read-write_history [] = refl
read-write_history (u ∷ us) =
    read-write_inner u.prev_update_hash u.signature u.update_type (write_history us)
    ∙ ap (prepend u.prev_update_hash u.signature u.update_type) (read-write_history us)
