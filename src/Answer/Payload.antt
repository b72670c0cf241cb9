-- ===== src/Answer/Payload.antt =====
-- answer/service.py, the reading of a response: JSON values, and the coercions `bool`, `str` and
-- `int`. An exception that the source catches as malformed is `malformed`, or `none` of an operation
-- that raises no other; the one that it does not catch, of an infinite id, is `overflowed`.
use cite_delta_rag.Prelude.{
  ◌≡◌, ◌⊎◌, inl, inr, refl, ℕ, suc, ◌/◌, ◌^◌, String, Bool, true, false, not, Option, none, some,
  List, [], ◌∷◌, ◌==◌, string_eq, if◌then◌else◌,
}
use cite_delta_rag.Prelude.Int.{ℤ, pos, negsuc, sub_ℕ, int_eq}
use cite_delta_rag.Text.{Text, codes, truthy}
use cite_delta_rag.Answer.Validator.{CitedRef}

-- A floating-point number: `finite n d` is n / 2 ^ d, and an infinite one has its sign.
pub data Float : Type 0 where
  finite : ℤ → ℕ → Float
  negative_zero : Float
  infinite : Bool → Float
  nan : Float

mutual
  pub data Json : Type 0 where
    null : Json
    bool : Bool → Json
    num : ℤ → Json
    float : Float → Json
    text : Text → Json
    arr : Items → Json
    obj : Fields → Json

  pub data Items : Type 0 where
    nil : Items
    cons : Json → Items → Items

  pub data Fields : Type 0 where
    end : Fields
    field : String → Json → Fields → Fields

-- What the service takes from Python's libraries: `json.loads`, `str` of a value that is no string,
-- and `int` of a string.
pub record Library : Type 0 where
  pub loads : Text → Option Json
  pub repr : Json → Text
  pub parse_int : Text → Option ℤ

lookup : String → Fields → Option Json
lookup k end = none
lookup k (field j v fs) = if j == k then some v else lookup k fs

-- `v[k]` by a string: only an object has such items.
unfoldable pub item : Json → String → Option Json
unfolding lookup
item (obj fs) k = lookup k fs
item null k = none
item _ k = none

-- The number without its fraction.
abbrev pub truncate : ℤ → ℕ → ℤ
truncate (pos n) d = pos (n / 2 ^ d)
truncate (negsuc n) d = sub_ℕ 0 (suc n / 2 ^ d)

float_to_bool : Float → Bool
float_to_bool (finite n d) = not (n == pos 0)
float_to_bool negative_zero = false
float_to_bool (infinite sign) = true
float_to_bool nan = true

-- `bool(v)`
unfoldable pub to_bool : Json → Bool
unfolding float_to_bool
to_bool null = false
to_bool (bool b) = b
to_bool (num n) = not (n == pos 0)
to_bool (float x) = float_to_bool x
to_bool (text t) = truthy t
to_bool (arr nil) = false
to_bool (arr (cons v vs)) = true
to_bool (obj end) = false
to_bool (obj (field k v fs)) = true

abbrev items_list : Items → List Json
items_list nil = []
items_list (cons v vs) = v ∷ items_list vs

abbrev key_list : Fields → List Json
key_list end = []
key_list (field k v fs) = text (codes k) ∷ key_list fs

abbrev char_list : Text → List Json
char_list [] = []
char_list (c ∷ cs) = text (c ∷ []) ∷ char_list cs

-- `for c in v`: a list, the keys of an object, or the characters of a string.
unfoldable pub iterate : Json → Option (List Json)
iterate (arr vs) = some (items_list vs)
iterate (obj fs) = some (key_list fs)
iterate (text t) = some (char_list t)
iterate null = none
iterate _ = none

pub data Attempt (A : Type 0) : Type 0 where
  got : A → Attempt A
  malformed : Attempt A
  overflowed : Attempt A

pub Attempt-cases :
    {A : Type 0} (m : Attempt A) → ((a : A) × (m ≡ got a)) ⊎ ((m ≡ malformed) ⊎ (m ≡ overflowed))
Attempt-cases (got a) = inl (a, refl)
Attempt-cases malformed = inr (inl refl)
Attempt-cases overflowed = inr (inr refl)

infixl 5 ◌>>=◌
abbrev pub ◌>>=◌ : {A B : Type 0} → Attempt A → (A → Attempt B) → Attempt B
got a >>= f = f a
malformed >>= f = malformed
overflowed >>= f = overflowed

abbrev pub or_malformed : {A : Type 0} → Option A → Attempt A
or_malformed none = malformed
or_malformed (some a) = got a

float_to_int : Float → Attempt ℤ
float_to_int (finite n d) = got (truncate n d)
float_to_int negative_zero = got (pos 0)
float_to_int (infinite sign) = overflowed
float_to_int nan = malformed

module _ (lib : Library) where
  -- `str(v)`
  unfoldable pub to_text : Json → Text
  to_text (text t) = t
  to_text null = lib.repr null
  to_text v = lib.repr v

  -- `int(v)`
  unfoldable pub to_int : Json → Attempt ℤ
  unfolding float_to_int
  to_int (num n) = got n
  to_int (float x) = float_to_int x
  to_int (bool b) = got (if b then pos 1 else pos 0)
  to_int (text t) = or_malformed (lib.parse_int t)
  to_int null = malformed
  to_int (arr vs) = malformed
  to_int (obj fs) = malformed

  unfoldable pub read_ref : Json → Attempt CitedRef
  unfolding item to_text to_int
  read_ref c = do
    id_value ← or_malformed (item c "id")
    i ← to_int id_value
    quote_value ← or_malformed (item c "quote")
    got (record { chunk_id = i; quote = to_text quote_value })

  unfoldable pub read_refs : List Json → Attempt (List CitedRef)
  unfolding read_ref
  read_refs [] = got []
  read_refs (c ∷ cs) = do ref ← read_ref c; refs ← read_refs cs; got (ref ∷ refs)

pub record Payload : Type 0 where
  pub out_of_scope : Bool
  pub sufficient : Bool
  pub answer : Text
  pub refs : List CitedRef

-- The body of the `try`; `malformed` is its `except`.
unfoldable pub read_payload : Library → Text → Attempt Payload
unfolding item to_bool to_text iterate read_refs
read_payload lib t = do
  payload ← or_malformed (lib.loads t)
  scope_value ← or_malformed (item payload "out_of_scope")
  sufficient_value ← or_malformed (item payload "sufficient")
  answer_value ← or_malformed (item payload "answer")
  citations_value ← or_malformed (item payload "citations")
  values ← or_malformed (iterate citations_value)
  refs ← read_refs lib values
  got (record {
    out_of_scope = to_bool scope_value;
    sufficient = to_bool sufficient_value;
    answer = to_text lib answer_value;
    refs = refs;
  })
